-- ===== src/MultipartyFss/Evaluate/Rows.antt =====
-- multiparty_fss/evaluate.py, `evaluate_many`: the rows that the points of a batch need.
use fed_kg_rag_secure_impl.Prelude.{
  ℕ, ◌/◌, ◌==◌, ◌≡◌, refl, subst, Bool-cases, true, inl, inr, List, [], ◌∷◌, ◌++◌, All, ==→eq,
}
use fed_kg_rag_secure_impl.Python.{Result, ok, >>=-eq-ok, map_result, nat_key}
use fed_kg_rag_secure_impl.Python.Sequence.{any_of}
use fed_kg_rag_secure_impl.MultipartyFss.Params.{MpDpfParams}
use fed_kg_rag_secure_impl.MultipartyFss.Arrays.{WordArrays, Bytes}
use fed_kg_rag_secure_impl.MultipartyFss.Evaluate.{add_row, rows_of}

module _ {ℓ κ} {A : Type ℓ} {B : Type κ} where
  pub map_result_same :
      (f g : A → Result B) (xs : List A)
      → All (λ x. f x ≡ g x) xs
      → map_result f xs ≡ map_result g xs
  map_result_same f g [] h = refl
  map_result_same f g (x ∷ xs) h = rw (h.0, map_result_same f g xs h.1) refl

  pub map_result-All :
      (f : A → Result B) (xs : List A) {ys : List B}
      → map_result f xs ≡ ok ys
      → All (λ x. (y : B) × (f x ≡ ok y)) xs
  map_result-All f [] h = tt
  map_result-All f (x ∷ xs) h =
      let (y, run, h1) = >>=-eq-ok (f x) _ h in
      let (more, runs, h2) = >>=-eq-ok (map_result f xs) _ h1 in
      ((y, run), map_result-All f xs runs)

  pub map_result_total :
      (f : A → Result B) (xs : List A)
      → All (λ x. (y : B) × (f x ≡ ok y)) xs
      → (ys : List B) × (map_result f xs ≡ ok ys)
  map_result_total f [] h = ([], refl)
  map_result_total f (x ∷ xs) h =
      let (ys, runs) = map_result_total f xs h.1 in (h.0.0 ∷ ys, rw (h.0.1, runs) refl)

-- The rows that the points need.
module _ (a : WordArrays) (G : MpDpfParams → Bytes → a.Array) (P : ℕ → Type 0) (width : ℕ) where
  add_row-All : (row : ℕ) (rows : List ℕ) → P row → All P rows → All P (add_row a G row rows)
  add_row-All row rows h k = elim (Bool-cases (any_of (λ r. r == row) rows)) [
    | inl there ↦ rw there k
    | inr new ↦ rw new (appended rows k)
  ]
    where
      appended : (l : List ℕ) → All P l → All P (l ++ row ∷ [])
      appended [] m = (h, tt)
      appended (r ∷ l) m = (m.0, appended l m.1)

  All-add_row : (row : ℕ) (rows : List ℕ) → All P (add_row a G row rows) → P row × All P rows
  All-add_row row rows h = elim (Bool-cases (any_of (λ r. r == row) rows)) [
    | inl there ↦ let all = rw there at h in (found rows there all, all)
    | inr new ↦ appended rows (rw new at h)
  ]
    where
      found : (l : List ℕ) → any_of (λ r. r == row) l ≡ true → All P l → P row
      found [] e m = cc
      found (r ∷ l) e m = elim (Bool-cases (r == row)) [
        | inl same ↦ subst P (==→eq r row same) m.0
        | inr other ↦ found l (rw other at e) m.1
      ]

      appended : (l : List ℕ) → All P (l ++ row ∷ []) → P row × All P l
      appended [] m = (m.0, tt)
      appended (r ∷ l) m = let (last, rest) = appended l m.1 in (last, (m.0, rest))

  pub rows_of-All :
      (points rows : List ℕ)
      → All (λ (x : ℕ). P (x / width)) points
      → All P rows
      → All P (rows_of a G width points rows)
  rows_of-All [] rows h k = k
  rows_of-All (x ∷ points) rows h k =
      rows_of-All points (add_row a G (x / width) rows) h.1 (add_row-All (x / width) rows h.0 k)

  pub All-rows_of :
      (points rows : List ℕ)
      → All P (rows_of a G width points rows)
      → All (λ (x : ℕ). P (x / width)) points × All P rows
  All-rows_of [] rows h = (tt, h)
  All-rows_of (x ∷ points) rows h =
      let (others, more) = All-rows_of points (add_row a G (x / width) rows) h in
      let (own, rest) = All-add_row (x / width) rows more in ((own, others), rest)
