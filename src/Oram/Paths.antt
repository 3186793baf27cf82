-- ===== src/Oram/Paths.antt =====
-- `path_buckets`: the heap indices from the root to the bucket of a leaf.
use native.Mathlib.Nat.{pow-suc, one-le-pow}
use fed_kg_rag_secure_impl.Prelude.{
  ℕ, zero, suc, ◌+◌, ◌-◌, ◌*◌, ◌/◌, ◌^◌, ◌<◌, ◌≤◌, ◌≡◌, refl, sym, ap, ◌∙◌, subst, true, false,
  some, List, [], ◌∷◌, arith, length, get_elem?, ltb, lt→ltb, ltb→lt, ◌==◌, Bool-cases, inl, inr,
}
use fed_kg_rag_secure_impl.Prelude.Arith.{div_double}
use fed_kg_rag_secure_impl.Python.{ok}
use fed_kg_rag_secure_impl.Oram.{climb, reversed_onto, path_buckets}

-- The list is `b`, `b / 2`, `b / 4` and so on, with `n` items.
record Halves (n b : ℕ) (path : List ℕ) : Type 0 where
  count : length path ≡ n
  item : (k : ℕ) → k < n → get_elem? path k ≡ some (b / 2 ^ k)

climb_zero : (fuel : ℕ) → climb fuel 0 ≡ []
unfolding climb
climb_zero zero = refl
climb_zero (suc fuel) = refl

halved : (b j : ℕ) → b / 2 / 2 ^ j ≡ b / 2 ^ suc j
halved b j =
    let twice : 2 * 2 ^ j ≡ 2 ^ suc j = omega (arith, pow-suc 2 j) in
    sym (div_double b (2 ^ j) (one-le-pow j 2 (omega arith))) ∙ ap (λ (t : ℕ). b / t) twice

climb-Halves :
    (d fuel b : ℕ) → d < fuel → 2 ^ d ≤ b → b < 2 ^ suc d → Halves (suc d) b (climb fuel b)
unfolding climb
climb-Halves d zero b h low high = absurd (omega arith)
climb-Halves zero (suc fuel) b h low high =
    let one : b ≡ 1 = omega arith in
    subst (λ (t : ℕ). Halves 1 t (climb (suc fuel) t)) (sym one)
      (rw (climb_zero fuel) (record {
        count = refl;
        item = elim [ zero ↦ λ k. refl | suc j ↦ λ k. absurd (omega arith) ];
      }))
climb-Halves (suc d) (suc fuel) b h low high =
    let r =
      climb-Halves d fuel (b / 2) (omega arith) (omega (arith, pow-suc 2 d))
        (omega (arith, pow-suc 2 (suc d))) in
    let real : (b == 0) ≡ false = ground (arith, one-le-pow (suc d) 2) in
    let whole : b ≡ b / 1 = omega arith in
    rw real (record {
      count = ap suc r.count;
      item = elim [
        | zero ↦ λ k. ap some whole
        | suc j ↦ λ k. r.item j (omega arith) ∙ ap some (halved b j)
      ];
    })

reversed_behind :
    (xs ys : List ℕ) (k : ℕ) → get_elem? (reversed_onto xs ys) (length xs + k) ≡ get_elem? ys k
reversed_behind [] ys k = let same : 0 + k ≡ k = omega arith in ap (get_elem? ys) same
reversed_behind (x ∷ xs) ys k =
    let moved : suc (length xs) + k ≡ length xs + suc k = omega arith in
    ap (get_elem? (reversed_onto xs (x ∷ ys))) moved ∙ reversed_behind xs (x ∷ ys) (suc k)

reversed_item :
    (xs ys : List ℕ) (j : ℕ)
    → j < length xs
    → get_elem? (reversed_onto xs ys) j ≡ get_elem? xs (length xs - 1 - j)
reversed_item [] ys j h = absurd (omega arith)
reversed_item (x ∷ xs) ys j h = elim (Bool-cases (ltb j (length xs))) [
  | inl before ↦
      let inside = ltb→lt j (length xs) before in
      let next : suc (length xs - 1 - j) ≡ suc (length xs) - 1 - j = omega arith in
      reversed_item xs (x ∷ ys) j inside ∙ ap (get_elem? (x ∷ xs)) next
  | inr behind ↦
      let last : j ≡ length xs + 0 = ground arith in
      let start : 0 ≡ suc (length xs) - 1 - j = ground arith in
      ap (get_elem? (reversed_onto xs (x ∷ ys))) last
      ∙ reversed_behind xs (x ∷ ys) 0
      ∙ ap (get_elem? (x ∷ xs)) start
]

length-reversed_onto : (xs ys : List ℕ) → length (reversed_onto xs ys) ≡ length xs + length ys
length-reversed_onto [] ys = omega arith
length-reversed_onto (x ∷ xs) ys = omega (arith, length-reversed_onto xs (x ∷ ys))

lt-pow : (n : ℕ) → n < 2 ^ n
lt-pow zero = omega arith
lt-pow (suc n) = omega (arith, pow-suc 2 n, lt-pow n)

-- From the root at position zero to the bucket of the leaf at position `depth`.
pub record IsPath (leaf depth : ℕ) (path : List ℕ) : Type 0 where
  pub count : length path ≡ depth + 1
  pub bucket :
      (level : ℕ)
      → level ≤ depth
      → get_elem? path level ≡ some ((leaf + 2 ^ depth) / 2 ^ (depth - level))

-- For a leaf below `2 ** depth`, `path_buckets` returns a path of `depth + 1` buckets whose item
-- at each level is the ancestor at that level of the bucket of the leaf, that is the bucket number
-- divided by two once for each level below.
pub path_buckets-IsPath :
    (leaf depth : ℕ)
    → leaf < 2 ^ depth
    → (path : List ℕ) × (path_buckets leaf depth ≡ ok path) × IsPath leaf depth path
unfolding path_buckets
path_buckets-IsPath leaf depth h =
    let b = leaf + 2 ^ depth in
    let r =
      climb-Halves depth b b (omega (arith, lt-pow depth)) (omega arith)
        (omega (arith, pow-suc 2 depth)) in
    let inside : ltb leaf (2 ^ depth) ≡ true = lt→ltb leaf (2 ^ depth) h in
    (
      reversed_onto (climb b b) [],
      rw inside,
      record {
        count = length-reversed_onto (climb b b) [] ∙ omega (arith, r.count);
        bucket = λ level k.
            let from_top : length (climb b b) - 1 - level ≡ depth - level =
              omega (arith, r.count) in
            reversed_item (climb b b) [] level (omega (arith, r.count))
            ∙ ap (get_elem? (climb b b)) from_top
            ∙ r.item (depth - level) (omega arith);
      },
    )
