-- ===== src/MultipartyFss/Evaluate/Batch.antt =====
-- multiparty_fss/evaluate.py: `evaluate_many` and `evaluate`.
use fed_kg_rag_secure_impl.Prelude.{
  ℕ, ◌/◌, ◌==◌, ◌≡◌, ◌↔◌, ap, refl, sym, subst, ◌∙◌, Bool-cases, true, inl, inr, not, List, [], ◌∷◌,
  map, ap₂, All, ltb, ==→eq, ==_refl,
}
use fed_kg_rag_secure_impl.Python.{
  ok, >>=-eq-ok, ok-injective, map_result, nat_key, Json, null, other, bool, int, str, pos, negsuc,
}
use fed_kg_rag_secure_impl.Python.Sequence.{item, sort_by, sort_by-All, All-sort_by}
use fed_kg_rag_secure_impl.MultipartyFss.Params.{MpDpfParams, domain_size, mu, cell}
use fed_kg_rag_secure_impl.MultipartyFss.Arrays.{WordArrays, Bytes}
use fed_kg_rag_secure_impl.MultipartyFss.KeyShare.{MpDpfKeyShare}
use fed_kg_rag_secure_impl.MultipartyFss.Evaluate.{
  checked_point, row_vector, evaluate, rows_of, cached_row, from_cache, evaluate_many,
}
use fed_kg_rag_secure_impl.MultipartyFss.Evaluate.Rows.{
  map_result_same, map_result-All, map_result_total, rows_of-All, All-rows_of,
}

-- A natural number as Python's `int`.
abbrev pub whole : ℕ → Json
whole n = int (pos n)

checked_point-inv :
    (p : MpDpfParams) (value : Json) {point : ℕ}
    → checked_point p value ≡ ok point
    → (value ≡ whole point) × (ltb point (domain_size p) ≡ true)
checked_point-inv p null h = cc
checked_point-inv p other h = cc
checked_point-inv p (bool b) h = cc
checked_point-inv p (str s) h = cc
checked_point-inv p (int (negsuc n)) h = cc
checked_point-inv p (int (pos n)) h = elim (Bool-cases (ltb n (domain_size p))) [
  | inl small ↦
      let same = ok-injective (rw (small, checked_point) at h) in
      (ap whole same, ap (λ (x : ℕ). ltb x (domain_size p)) (sym same) ∙ small)
  | inr large ↦ let gone = rw (large, checked_point) at h in cc
]

-- The values of a batch that pass the check are its points, all in the domain.
checked_points-inv :
    (p : MpDpfParams) (values : List Json) {points : List ℕ}
    → map_result (checked_point p) values ≡ ok points
    → (values ≡ map whole points) × All (λ x. ltb x (domain_size p) ≡ true) points
checked_points-inv p [] h =
    let Holds : List ℕ → Type 0 =
      λ l. ([] ≡ map whole l) × All (λ x. ltb x (domain_size p) ≡ true) l in
    subst Holds (ok-injective h) (refl, tt)
checked_points-inv p (value ∷ values) h =
    let (point, test, h1) = >>=-eq-ok (checked_point p value) _ h in
    let (rest, tests, h2) = >>=-eq-ok (map_result (checked_point p) values) _ h1 in
    let (same, small) = checked_point-inv p value test in
    let (others, inside) = checked_points-inv p values tests in
    subst (λ l. (value ∷ values ≡ map whole l) × All (λ x. ltb x (domain_size p) ≡ true) l)
      (ok-injective h2) (ap₂ ◌∷◌ same others, (small, inside))

checked_points :
    (p : MpDpfParams) (points : List ℕ)
    → All (λ x. ltb x (domain_size p) ≡ true) points
    → map_result (checked_point p) (map whole points) ≡ ok points
checked_points p [] h = refl
checked_points p (x ∷ points) h = rw (h.0, checked_point, checked_points p points h.1) refl

module _ (a : WordArrays) (G : MpDpfParams → Bytes → a.Array) (k : MpDpfKeyShare a) where
  -- The cache holds the vectors of its rows.
  cached_row-item :
      (rows : List ℕ) {cache : List (ℕ × a.Array)}
      → map_result (cached_row a G k) rows ≡ ok cache
      → All (λ row. item row cache ≡ row_vector a G k row) rows
  cached_row-item [] h = tt
  cached_row-item (row ∷ rows) {cache} h =
      let (pair, run, h1) = >>=-eq-ok (cached_row a G k row) _ h in
      let (rest, runs, h2) = >>=-eq-ok (map_result (cached_row a G k) rows) _ h1 in
      let (v, made, e) = >>=-eq-ok (row_vector a G k row) _ run in
      let front : (row, v) ∷ rest ≡ cache = ap (λ p. p ∷ rest) (ok-injective e) ∙ ok-injective h2 in
      subst (λ c. All (λ r. item r c ≡ row_vector a G k r) (row ∷ rows)) front
        (rw (==_refl row) (sym made), behind v rest made rows (cached_row-item rows runs))
    where
      behind :
          (v : a.Array) (rest : List (ℕ × a.Array))
          → row_vector a G k row ≡ ok v
          → (l : List ℕ) → All (λ r. item r rest ≡ row_vector a G k r) l
          → All (λ r. item r ((row, v) ∷ rest) ≡ row_vector a G k r) l
      behind v rest made [] m = tt
      behind v rest made (r ∷ l) m = (
        elim (Bool-cases (r == row)) [
          | inl same ↦ rw same (sym (ap (row_vector a G k) (==→eq r row same) ∙ made))
          | inr apart ↦ rw apart m.0
        ],
        behind v rest made l m.1,
      )

  -- One point of the batch.
  from_cache-evaluate :
      (cache : List (ℕ × a.Array)) (points : List ℕ)
      → All (λ x. ltb x (domain_size k.params) ≡ true) points
      → All (λ (x : ℕ). item (x / mu k.params) cache ≡ row_vector a G k (x / mu k.params)) points
      → All (λ x. from_cache a G k.params cache x ≡ evaluate a G k x) points
  unfolding evaluate cell
  from_cache-evaluate cache [] inside h = tt
  from_cache-evaluate cache (x ∷ points) inside h =
      (rw (inside.0, h.0) refl, from_cache-evaluate cache points inside.1 h.1)

  sorted_rows : List ℕ → List ℕ
  sorted_rows points = sort_by (λ r s. not (ltb s r)) (rows_of a G (mu k.params) points [])

  batch_step :
      (points : List ℕ) {cache : List (ℕ × a.Array)}
      → All (λ x. ltb x (domain_size k.params) ≡ true) points
      → map_result (cached_row a G k) (sorted_rows points) ≡ ok cache
      → map_result (from_cache a G k.params cache) points ≡ map_result (evaluate a G k) points
  unfolding sorted_rows
  batch_step points {cache} inside h =
      let Cached : ℕ → Type 0 = λ row. item row cache ≡ row_vector a G k row in
      let rows = rows_of a G (mu k.params) points [] in
      let all =
        sort_by-All (λ r s. not (ltb s r)) Cached rows (cached_row-item (sorted_rows points) h) in
      map_result_same (from_cache a G k.params cache) (evaluate a G k) points (
        from_cache-evaluate cache points inside
          (All-rows_of a G Cached (mu k.params) points [] all).0)

  -- What the evaluation of a point needs.
  evaluate-inv :
      (x : ℕ) {y : ℕ}
      → evaluate a G k x ≡ ok y
      → (ltb x (domain_size k.params) ≡ true)
        × ((v : a.Array) × (row_vector a G k (x / mu k.params) ≡ ok v))
  unfolding evaluate cell
  evaluate-inv x h = elim (Bool-cases (ltb x (domain_size k.params))) [
    | inl small ↦
        let h1 = rw small at h in
        let (v, run, rest) = >>=-eq-ok (row_vector a G k (x / mu k.params)) _ h1 in
        (small, (v, run))
    | inr large ↦ let gone = rw large at h in cc
  ]

  evaluated_points :
      (points : List ℕ)
      → All (λ x. (y : ℕ) × (evaluate a G k x ≡ ok y)) points
      → All (λ x. ltb x (domain_size k.params) ≡ true) points
        × All (λ (x : ℕ). (v : a.Array) × (row_vector a G k (x / mu k.params) ≡ ok v)) points
  evaluated_points [] h = (tt, tt)
  evaluated_points (x ∷ points) h =
      let (small, row) = evaluate-inv x h.0.1 in
      let (inside, rows) = evaluated_points points h.1 in ((small, inside), (row, rows))

  cached_rows :
      (rows : List ℕ)
      → All (λ row. (v : a.Array) × (row_vector a G k row ≡ ok v)) rows
      → All (λ row. (p : ℕ × a.Array) × (cached_row a G k row ≡ ok p)) rows
  cached_rows [] h = tt
  cached_rows (row ∷ rows) h = (((row, h.0.0), rw h.0.1 refl), cached_rows rows h.1)

  -- `evaluate_many` returns a list of output shares exactly when every value it is given is an
  -- integer, none of them a bool or negative, and evaluating them one by one with `evaluate`
  -- returns that list.
  pub evaluate_many-iff_evaluate :
      (values : List Json) (ys : List ℕ)
      → (evaluate_many a G k values ≡ ok ys) ↔ (
          (points : List ℕ) × (values ≡ map whole points)
          × (map_result (evaluate a G k) points ≡ ok ys))
  unfolding evaluate_many sorted_rows
  evaluate_many-iff_evaluate values ys = (
    λ h.
        let (points, test, h1) = >>=-eq-ok (map_result (checked_point k.params) values) _ h in
        let (same, inside) = checked_points-inv k.params values test in
        let (cache, run, h2) =
          >>=-eq-ok (map_result (cached_row a G k) (sorted_rows points)) _ h1 in
        (points, same, sym (batch_step points inside run) ∙ h2),
    λ (points, same, h).
        let Total : ℕ → Type 0 = λ row. (v : a.Array) × (row_vector a G k row ≡ ok v) in
        let (inside, needed) = evaluated_points points (map_result-All (evaluate a G k) points h) in
        let rows = rows_of a G (mu k.params) points [] in
        let total =
          All-sort_by (λ r s. not (ltb s r)) Total rows
            (rows_of-All a G Total (mu k.params) points [] needed tt) in
        let (cache, run) =
          map_result_total (cached_row a G k) (sorted_rows points)
            (cached_rows (sorted_rows points) total) in
        let test =
          ap (map_result (checked_point k.params)) same ∙ checked_points k.params points inside in
        rw (test, run) (batch_step points inside run ∙ h),
  )
