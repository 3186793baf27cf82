-- ===== src/Oram/Groups.antt =====
-- `pack_labels`: one level of the recursive position map, read back by quotient and remainder.
use native.Mathlib.Nat.{div-add-mod, mod-lt, le_refl}
use fed_kg_rag_secure_impl.Prelude.{
  ℕ, zero, suc, ◌+◌, ◌-◌, ◌*◌, ◌/◌, ◌%◌, ◌<◌, ◌≤◌, ◌≡◌, refl, sym, ap, ◌∙◌, some, List, [], ◌∷◌,
  ◌++◌, arith, length, take, drop, replicate, get_elem?, length-drop, length-take, length-append,
  length-replicate, min, get_elem?-append_left,
}
use fed_kg_rag_secure_impl.Oram.{pack_labels}

-- The group `q` has `chi` items, and its item `r` is the label `i`.
pub record HoldsLabel (chi : ℕ) (groups : List (List ℕ)) (labels : List ℕ) (q r i : ℕ)
    : Type 0 where
  pub group : List ℕ
  pub found : get_elem? groups q ≡ some group
  pub full : length group ≡ chi
  pub item : get_elem? group r ≡ get_elem? labels i

get_elem?-take : (n i : ℕ) (xs : List ℕ) → i < n → get_elem? (take n xs) i ≡ get_elem? xs i
get_elem?-take zero i xs h = absurd (omega arith)
get_elem?-take (suc n) i [] h = refl
get_elem?-take (suc n) zero (x ∷ xs) h = refl
get_elem?-take (suc n) (suc i) (x ∷ xs) h = get_elem?-take n i xs (omega arith)

get_elem?-drop : (n i : ℕ) (xs : List ℕ) → get_elem? (drop n xs) i ≡ get_elem? xs (n + i)
get_elem?-drop zero i xs = ap (get_elem? xs) (omega arith)
get_elem?-drop (suc n) i [] = refl
get_elem?-drop (suc n) i (x ∷ xs) =
    let moved : suc (n + i) ≡ suc n + i = omega arith in
    get_elem?-drop n i xs ∙ ap (get_elem? (x ∷ xs)) moved

group-HoldsLabel :
    (chi q r i fuel : ℕ) (labels : List ℕ)
    → r < chi
    → i ≡ q * chi + r
    → i < length labels
    → length labels ≤ fuel
    → HoldsLabel chi (pack_labels chi fuel labels) labels q r i
unfolding pack_labels
group-HoldsLabel chi q r i fuel [] small e h k = absurd (omega arith)
group-HoldsLabel chi q r i zero (x ∷ xs) small e h k = absurd (omega arith)
group-HoldsLabel chi zero r i (suc fuel) (x ∷ xs) small e h k = record {
  group = group ++ padding;
  found = refl;
  full =
      omega
        (arith, length-append group padding, length-replicate {A = ℕ} (chi - length group) 0, wide);
  item =
      ap (get_elem? (group ++ padding)) (sym same)
      ∙ get_elem?-append_left group padding i inside
      ∙ get_elem?-take chi i (x ∷ xs) (omega arith);
}
  where
    group : List ℕ
    group = take chi (x ∷ xs)

    padding : List ℕ
    padding = replicate (chi - length group) 0

    wide : length group ≡ min chi (length (x ∷ xs))
    wide = length-take chi (x ∷ xs)

    same : i ≡ r
    same = omega arith

    inside : i < length group
    inside = omega (arith, wide)
group-HoldsLabel chi (suc q) r i (suc fuel) (x ∷ xs) small e h k =
    let left = length-drop chi (x ∷ xs) in
    let product : suc q * chi ≡ q * chi + chi = omega arith in
    let ih =
      group-HoldsLabel chi q r (i - chi) fuel (drop chi (x ∷ xs)) small (omega arith) (omega arith)
        (omega arith) in
    let moved : chi + (i - chi) ≡ i = omega arith in
    record {
      group = ih.group;
      found = ih.found;
      full = ih.full;
      item = ih.item ∙ get_elem?-drop chi (i - chi) (x ∷ xs) ∙ ap (get_elem? (x ∷ xs)) moved;
    }

-- For `chi` at least 1 and every index below the number of labels, the packed map has a group at
-- the index divided by `chi`, this group has exactly `chi` items, and its item at the remainder is
-- the label of the index.
pub pack_labels-HoldsLabel :
    (chi : ℕ) (labels : List ℕ) (i : ℕ)
    → 1 ≤ chi
    → i < length labels
    → HoldsLabel chi (pack_labels chi (length labels) labels) labels (i / chi) (i % chi) i
pack_labels-HoldsLabel chi labels i h k =
    let whole : i ≡ i / chi * chi + i % chi = omega (arith, div-add-mod i chi) in
    group-HoldsLabel chi (i / chi) (i % chi) i (length labels) labels (mod-lt i h) whole k
      (le_refl _)
