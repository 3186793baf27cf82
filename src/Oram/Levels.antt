-- ===== src/Oram/Levels.antt =====
-- The recursion over the levels ends by itself: every level has fewer entries than the one below.
use fed_kg_rag_secure_impl.Prelude.{
  ℕ, zero, suc, ◌+◌, ◌*◌, ◌^◌, ◌≤◌, ◌≡◌, refl, sym, ap, ◌∙◌, false, List, [], ◌∷◌, map, arith,
  length, drop, length-drop, length-map, leb, ◌||◌, Bool-cases, inl, inr, tests,
}
use fed_kg_rag_secure_impl.Python.{Result, ok, err, value_error, ◌>>=◌, >>=-eq-ok, ok-injective}
use fed_kg_rag_secure_impl.Python.Sequence.{max_default}
use fed_kg_rag_secure_impl.Config.{range_from}
use fed_kg_rag_secure_impl.Oram.{
  OwnerOramTree, Occupancy, bucket_sizes, occupy, place, entry_width, write_buckets,
  build_owner_oram_tree, pack_labels, build_levels,
}

length-range_from : (lo n : ℕ) → length (range_from lo n) ≡ n
length-range_from lo zero = refl
length-range_from lo (suc n) = ap suc (length-range_from (lo + 1) n)

length-place :
    (draw : ℕ → ℕ → ℕ) (size bucket_size attempt more : ℕ) {a : List ℕ} {o : Occupancy}
    → place draw size bucket_size attempt more ≡ ok (a, o)
    → length a ≡ size
unfolding place
length-place draw size bucket_size attempt zero h = cc
length-place draw size bucket_size attempt (suc more) {a} {o} h =
    elim (Bool-cases (leb (max_default 0 (bucket_sizes occupied)) bucket_size)) [
      | inl fits ↦
          let same : (assignment, occupied) ≡ (a, o) = ok-injective (rw fits at h) in
          ap (λ (x : List ℕ × Occupancy). length x.0) (sym same)
          ∙ length-map (range_from 0 size) (draw attempt)
          ∙ length-range_from 0 size
      | inr full ↦ length-place draw size bucket_size (attempt + 1) more (rw full at h)
    ]
  where
    assignment : List ℕ
    assignment = map (draw attempt) (range_from 0 size)

    occupied : Occupancy
    occupied = occupy 0 assignment []

build_owner_oram_tree-length :
    (shape : ℕ → ℕ × ℕ) (draw : ℕ → ℕ → ℕ) (attempts : ℕ) (values : List (List ℕ))
    {t : OwnerOramTree}
    → build_owner_oram_tree shape draw attempts values ≡ ok t
    → length t.position_map ≡ length values
unfolding build_owner_oram_tree
build_owner_oram_tree-length shape draw attempts values {t} h =
    let (width, _, placed) = >>=-eq-ok (entry_width values) _ h in
    let ((assignment, occupancy), drawn, written) =
      >>=-eq-ok (place draw (length values) (shape (length values)).0 0 attempts) _ placed in
    let (fields, _, built) =
      >>=-eq-ok (write_buckets values (2 ^ (shape (length values)).1) _ occupancy _) _ written in
    ap (λ (u : OwnerOramTree). length u.position_map) (sym (ok-injective built))
    ∙ length-place draw (length values) (shape (length values)).0 0 attempts drawn

-- With `chi` at least 2, the groups are at most half as many as the labels, rounded up.
length-pack_labels :
    (chi fuel : ℕ) (labels : List ℕ)
    → 2 ≤ chi
    → length (pack_labels chi fuel labels) * 2 ≤ length labels + 1
unfolding pack_labels
length-pack_labels chi fuel [] h = omega arith
length-pack_labels chi zero (x ∷ xs) h = omega arith
length-pack_labels chi (suc fuel) (x ∷ xs) h =
    let rest = length-pack_labels chi fuel (drop chi (x ∷ xs)) h in
    let left = length-drop chi (x ∷ xs) in omega arith

-- Two runs of `m` agree when what follows agrees on each result of `m`.
>>=-cong {ℓ ℓ'} :
    {X : Type ℓ} {Y : Type ℓ'} (m : Result X) (f g : X → Result Y)
    → ((x : X) → m ≡ ok x → f x ≡ g x)
    → (m >>= f) ≡ (m >>= g)
>>=-cong (err raised) f g h = refl
>>=-cong (ok x) f g h = h x refl

-- A level that is not the last has more than two labels, so the next has fewer values.
pack_labels-shrinks :
    (chi base_threshold fuel : ℕ) (labels : List ℕ)
    → 2 ≤ chi
    → (leb (length labels) base_threshold || leb (length labels) chi) ≡ false
    → length labels ≤ suc fuel
    → length (pack_labels chi (length labels) labels) ≤ fuel
pack_labels-shrinks chi base_threshold fuel labels wide more h =
    let half = length-pack_labels chi (length labels) labels wide in grind (tests, half)

module _ (shape : ℕ → ℕ × ℕ) (draw : ℕ → ℕ → ℕ → ℕ) (chi base_threshold : ℕ) (wide : 2 ≤ chi) where
  build_none :
      (level n : ℕ) → build_levels shape draw chi base_threshold level n [] ≡ err value_error
  unfolding build_levels build_owner_oram_tree entry_width
  build_none level zero = refl
  build_none level (suc n) = refl

  -- For `chi` at least 2, the loop over the levels gives the same result, an error or a stack, on
  -- any two amounts of fuel that are at least the number of values, since each level that is not
  -- the last has a next one with fewer values.
  pub build_levels_fuel :
      (level fuel more : ℕ) (values : List (List ℕ))
      → length values ≤ fuel
      → length values ≤ more
      → build_levels shape draw chi base_threshold level fuel values
        ≡ build_levels shape draw chi base_threshold level more values
  unfolding build_levels
  build_levels_fuel level fuel more [] h k = build_none level fuel ∙ sym (build_none level more)
  build_levels_fuel level zero more (v ∷ values) h k = absurd (omega arith)
  build_levels_fuel level (suc fuel) zero (v ∷ values) h k = absurd (omega arith)
  build_levels_fuel level (suc fuel) (suc more) (v ∷ values) h k =
      >>=-cong (build_owner_oram_tree shape (draw level) 64 (v ∷ values)) _ _ λ tree built.
        let labels = tree.position_map in
        let size = build_owner_oram_tree-length shape (draw level) 64 (v ∷ values) built in
        elim (Bool-cases (leb (length labels) base_threshold || leb (length labels) chi)) [
          | inl last ↦ rw last refl
          | inr on ↦
              let groups = pack_labels chi (length labels) labels in
              let shrunk =
                pack_labels-shrinks chi base_threshold fuel labels wide on (omega arith) in
              let short =
                pack_labels-shrinks chi base_threshold more labels wide on (omega arith) in
              rw (on, build_levels_fuel (level + 1) fuel more groups shrunk short) refl
        ]
