-- ===== src/Config/Sorted.antt =====
-- doram_t2_3pc/config.py: `sorted(xs)` and its comparison with a range of numbers.
use fed_kg_rag_secure_impl.Prelude.{
  ℕ, zero, suc, ◌+◌, ◌-◌, ◌≤◌, ◌<◌, ◌≡◌, ◌≢◌, ◌↔◌, refl, sym, ap, ap₂, subst, ◌∙◌, true, List, [],
  ◌∷◌, length, arith, All, All-unzip, Distinct, leb, inl, inr, Bool-cases,
}
use fed_kg_rag_secure_impl.Config.{sorted, insert_sorted, range_from, same_list, is_contiguous}

-- A list of numbers between 1 and `n`.
abbrev pub Within : ℕ → List ℕ → Type 0
Within n ids = All (λ (v : ℕ). (1 ≤ v) × (v ≤ n)) ids

module _ {κ} (P : ℕ → Type κ) where
  All-insert_sorted : (a : ℕ) (xs : List ℕ) → All P (insert_sorted a xs) → P a × All P xs
  All-insert_sorted a [] h = h
  All-insert_sorted a (b ∷ bs) h = elim (Bool-cases (leb a b)) [
    | inl le ↦ rw le at h
    | inr gt ↦
        let later = rw gt at h in let ih = All-insert_sorted a bs later.1 in (ih.0, (later.0, ih.1))
  ]

  All-sorted : (xs : List ℕ) → All P (sorted xs) → All P xs
  unfolding sorted
  All-sorted [] h = h
  All-sorted (a ∷ xs) h =
      let (first, rest) = All-insert_sorted a (sorted xs) h in (first, All-sorted xs rest)

  insert_sorted-All : (a : ℕ) (xs : List ℕ) → P a → All P xs → All P (insert_sorted a xs)
  insert_sorted-All a [] h k = (h, tt)
  insert_sorted-All a (b ∷ bs) h k = elim (Bool-cases (leb a b)) [
    | inl le ↦ rw le (h, k)
    | inr gt ↦ rw gt (k.0, insert_sorted-All a bs h k.1)
  ]

  sorted-All : (xs : List ℕ) → All P xs → All P (sorted xs)
  unfolding sorted
  sorted-All [] h = h
  sorted-All (a ∷ xs) h = insert_sorted-All a (sorted xs) h.0 (sorted-All xs h.1)

length-insert_sorted : (a : ℕ) (xs : List ℕ) → length (insert_sorted a xs) ≡ suc (length xs)
length-insert_sorted a [] = refl
length-insert_sorted a (b ∷ bs) = ground (arith, length-insert_sorted a bs)

length-sorted : (xs : List ℕ) → length (sorted xs) ≡ length xs
unfolding sorted
length-sorted [] = refl
length-sorted (a ∷ xs) = length-insert_sorted a (sorted xs) ∙ ap suc (length-sorted xs)

pub same_list→eq : (xs ys : List ℕ) → same_list xs ys ≡ true → xs ≡ ys
same_list→eq [] [] h = refl
same_list→eq [] (y ∷ ys) h = cc
same_list→eq (x ∷ xs) [] h = cc
same_list→eq (x ∷ xs) (y ∷ ys) h = ground (arith, same_list→eq xs ys)

same_list_refl : (xs : List ℕ) → same_list xs xs ≡ true
same_list_refl [] = refl
same_list_refl (x ∷ xs) = ground (arith, same_list_refl xs)

insert_sorted-Distinct :
    (a : ℕ) (xs : List ℕ) → Distinct (insert_sorted a xs) → All (λ (y : ℕ). y ≢ a) xs × Distinct xs
insert_sorted-Distinct a [] h = (tt, tt)
insert_sorted-Distinct a (b ∷ xs) h = elim (Bool-cases (leb a b)) [
  | inl before ↦ rw before at h
  | inr behind ↦
      let split : Distinct (b ∷ insert_sorted a xs) = rw behind at h in
      let (apart, rest) = insert_sorted-Distinct a xs split.1 in
      let (new, others) = All-insert_sorted (λ (y : ℕ). y ≢ b) a xs split.0 in
      ((λ e. new (sym e), apart), (others, rest))
]

sorted-Distinct : (xs : List ℕ) → Distinct (sorted xs) → Distinct xs
unfolding sorted
sorted-Distinct [] h = tt
sorted-Distinct (a ∷ xs) h =
    let (apart, rest) = insert_sorted-Distinct a (sorted xs) h in
    (All-sorted (λ (y : ℕ). y ≢ a) xs apart, sorted-Distinct xs rest)

range_from-All : (m lo n : ℕ) → m < lo → All (λ (y : ℕ). y ≢ m) (range_from lo n)
range_from-All m lo zero h = tt
range_from-All m lo (suc n) h = (λ e. omega arith, range_from-All m (lo + 1) n (omega arith))

range_from-Distinct : (lo n : ℕ) → Distinct (range_from lo n)
range_from-Distinct lo zero = tt
range_from-Distinct lo (suc n) =
    (range_from-All lo (lo + 1) n (omega arith), range_from-Distinct (lo + 1) n)

-- A list that sorts to a range has no number twice.
pub accepted-Distinct :
    (ids : List ℕ) (lo n : ℕ) → same_list (sorted ids) (range_from lo n) ≡ true → Distinct ids
accepted-Distinct ids lo n h = sorted-Distinct ids (
    subst Distinct (sym (same_list→eq (sorted ids) (range_from lo n) h)) (range_from-Distinct lo n))

range_from-Within : (lo n m : ℕ) → 1 ≤ lo → lo + n ≤ m + 1 → Within m (range_from lo n)
range_from-Within lo zero m h k = tt
range_from-Within lo (suc n) m h k =
    ((h, omega arith), range_from-Within (lo + 1) n m (omega arith) (omega arith))

-- Every number is below all later ones.
abbrev IsAscending : List ℕ → Type 0
IsAscending [] = Unit
IsAscending (a ∷ xs) = All (λ (y : ℕ). a < y) xs × IsAscending xs

All-above : (a b : ℕ) (xs : List ℕ) → a < b → All (λ (y : ℕ). b < y) xs → All (λ (y : ℕ). a < y) xs
All-above a b [] h k = tt
All-above a b (x ∷ xs) h k = (omega (arith, k.0), All-above a b xs h k.1)

insert_sorted-IsAscending :
    (a : ℕ) (xs : List ℕ)
    → All (λ (y : ℕ). y ≢ a) xs
    → IsAscending xs
    → IsAscending (insert_sorted a xs)
insert_sorted-IsAscending a [] apart h = (tt, tt)
insert_sorted-IsAscending a (b ∷ bs) apart h = elim (Bool-cases (leb a b)) [
  | inl le ↦
      let below : a < b = ground (arith, apart.0) in rw le ((below, All-above a b bs below h.0), h)
  | inr gt ↦ rw gt (
    insert_sorted-All (λ (y : ℕ). b < y) a bs (ground arith) h.0,
    insert_sorted-IsAscending a bs apart.1 h.1,
  )
]

sorted-IsAscending : (xs : List ℕ) → Distinct xs → IsAscending (sorted xs)
unfolding sorted
sorted-IsAscending [] h = tt
sorted-IsAscending (a ∷ xs) h =
    insert_sorted-IsAscending a (sorted xs) (sorted-All (λ (y : ℕ). y ≢ a) xs h.0)
      (sorted-IsAscending xs h.1)

-- An ascending list has at most as many numbers as there are between its bounds.
ascending_length :
    (xs : List ℕ) (lo hi : ℕ)
    → IsAscending xs
    → All (λ (y : ℕ). lo < y) xs
    → All (λ (y : ℕ). y ≤ hi) xs
    → length xs ≤ hi - lo
ascending_length [] lo hi h above below = omega arith
ascending_length (x ∷ xs) lo hi h above below =
    let rest = ascending_length xs x hi h.1 h.0 below.1 in omega (arith, rest, above.0, below.0)

-- An ascending list with as many numbers as there are between its bounds is the range.
ascending_range :
    (xs : List ℕ) (lo hi : ℕ)
    → IsAscending xs
    → All (λ (y : ℕ). lo < y) xs
    → All (λ (y : ℕ). y ≤ hi) xs
    → hi ≡ lo + length xs
    → xs ≡ range_from (lo + 1) (length xs)
ascending_range [] lo hi h above below e = refl
ascending_range (x ∷ xs) lo hi h above below e =
    let room = ascending_length xs x hi h.1 h.0 below.1 in
    let first : x ≡ lo + 1 = omega (arith, room, above.0, below.0) in
    let rest = ascending_range xs x hi h.1 h.0 below.1 (omega (arith, first)) in
    ap₂ ◌∷◌ first (rest ∙ ap (λ (n : ℕ). range_from (n + 1) (length xs)) first)

-- The contiguous numberings: no number occurs twice, and all are between 1 and their count.
pub is_contiguous-iff_Within :
    (ids : List ℕ) → (is_contiguous ids ≡ true) ↔ (Distinct ids × Within (length ids) ids)
unfolding is_contiguous
is_contiguous-iff_Within ids = (
  λ h. (
    accepted-Distinct ids 1 (length ids) h,
    All-sorted (λ (v : ℕ). (1 ≤ v) × (v ≤ length ids)) ids
        (subst (λ l. Within (length ids) l) (sym (same_list→eq (sorted ids) _ h))
          (range_from-Within 1 (length ids) (length ids) (omega arith) (omega arith))),
  ),
  λ (distinct, within).
      let (above, below) = All-unzip (λ (v : ℕ). 1 ≤ v) (λ (v : ℕ). v ≤ length ids) ids within in
      let range =
        ascending_range (sorted ids) 0 (length ids) (sorted-IsAscending ids distinct)
          (sorted-All (λ (v : ℕ). 0 < v) ids above)
          (sorted-All (λ (v : ℕ). v ≤ length ids) ids below) (omega (arith, length-sorted ids)) in
      subst (λ (l : List ℕ). same_list l (range_from 1 (length ids)) ≡ true)
        (sym (range ∙ ap (range_from 1) (length-sorted ids)))
        (same_list_refl (range_from 1 (length ids))),
)
