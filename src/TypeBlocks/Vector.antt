-- ===== src/TypeBlocks/Vector.antt =====
-- `build_owner_vector` and `lookup_cleartext` of the blocked directory: the vector of one owner read
-- back by key.
use fed_kg_rag_secure_impl.Prelude.{
  ℕ, ◌<◌, ◌≡◌, ◌≢◌, refl, sym, ap, ◌∙◌, String, Option, none, some, List, [], ◌∷◌, ◌++◌, length,
  replicate, set, get_elem?, get_elem?-set_self, get_elem?-set_ne, get_elem?-replicate, All,
}
use fed_kg_rag_secure_impl.Python.{
  ok, err, value_error, ◌>>=◌, >>=-eq-ok, ok-injective, lookup, string_key,
}
use fed_kg_rag_secure_impl.Python.Sequence.{set_item, set_item-set}
use fed_kg_rag_secure_impl.TypeBlocks.{
  TypeBlockedLayout, address, build_layout_from_public_ids, total_rows, write_descriptors,
  build_owner_vector, lookup_cleartext,
}
use fed_kg_rag_secure_impl.TypeBlocks.Rows.{address-injective}
use fed_kg_rag_secure_impl.TypeBlocks.Height.{address-lt-total_rows}

abbrev Keyed : Type 0
Keyed = (String × String) × ℕ

-- No key of the list has the row.
abbrev Unwritten : TypeBlockedLayout → ℕ → List Keyed → Type 0
Unwritten l i keyed = All (λ (k : Keyed). address l k.0.0 k.0.1 ≡ ok (some i) → ⊥) keyed

-- One step of the loop: the key has a row, and the vector is set there.
record Written (l : TypeBlockedLayout) (k : Keyed) (rest : List Keyed) (vector out : List ℕ)
    : Type 0 where
  row : ℕ
  addressed : address l k.0.0 k.0.1 ≡ ok (some row)
  inside : row < length vector
  after : write_descriptors l rest (set vector row k.1) ≡ ok out

write_descriptors-Written :
    (l : TypeBlockedLayout) (k : Keyed) (rest : List Keyed) (vector : List ℕ) {out : List ℕ}
    → write_descriptors l (k ∷ rest) vector ≡ ok out
    → Written l k rest vector out
unfolding write_descriptors
write_descriptors-Written l ((entity, relation), d) rest vector {out} h =
    let (row, a, more) = >>=-eq-ok (address l entity relation) _ h in go row a more
  where
    go :
        (row : Option ℕ)
        → address l entity relation ≡ ok row
        → (elim row [ none ↦ err value_error | some i ↦ set_item vector i d ] >>= λ next.
            write_descriptors l rest next)
          ≡ ok out
        → Written l ((entity, relation), d) rest vector out
    go none a more = cc
    go (some i) a more =
        let (next, s, left) = >>=-eq-ok (set_item vector i d) _ more in
        let (same, inside) = set_item-set vector i d s in
        record { row = i; addressed = a; inside = inside; after = rw same at left }

write_descriptors-keeps :
    (l : TypeBlockedLayout) (i : ℕ) (keyed : List Keyed) (vector : List ℕ) {out : List ℕ}
    → Unwritten l i keyed
    → write_descriptors l keyed vector ≡ ok out
    → get_elem? out i ≡ get_elem? vector i
unfolding write_descriptors
write_descriptors-keeps l i [] vector u h =
    ap (λ (v : List ℕ). get_elem? v i) (sym (ok-injective h))
write_descriptors-keeps l i (k ∷ keyed) vector u h =
    let w = write_descriptors-Written l k keyed vector h in
    let other : w.row ≢ i = λ e. u.0 (w.addressed ∙ ap (λ (r : ℕ). ok (some r)) e) in
    write_descriptors-keeps l i keyed (set vector w.row k.1) u.1 w.after
    ∙ get_elem?-set_ne vector w.row i k.1 other

-- The last key that has a row decides what stands there.
record Held (l : TypeBlockedLayout) (k : Keyed) (out : List ℕ) : Type 0 where
  row : ℕ
  addressed : address l k.0.0 k.0.1 ≡ ok (some row)
  cell : get_elem? out row ≡ some k.1

write_descriptors-Held :
    (l : TypeBlockedLayout) (before : List Keyed) (k : Keyed) (after : List Keyed) (vector : List ℕ)
    {out : List ℕ}
    → ((i : ℕ) → address l k.0.0 k.0.1 ≡ ok (some i) → Unwritten l i after)
    → write_descriptors l (before ++ k ∷ after) vector ≡ ok out
    → Held l k out
write_descriptors-Held l [] k after vector last h =
    let w = write_descriptors-Written l k after vector h in
    record {
      row = w.row;
      addressed = w.addressed;
      cell =
          write_descriptors-keeps l w.row after (set vector w.row k.1) (last w.row w.addressed)
            w.after
          ∙ get_elem?-set_self vector w.row k.1 w.inside;
    }
write_descriptors-Held l (b ∷ before) k after vector last h =
    let w = write_descriptors-Written l b (before ++ k ∷ after) vector h in
    write_descriptors-Held l before k after (set vector w.row b.1) last w.after

-- The key has another relation or an entity with another identifier than each key of the list.
abbrev pub Differs : List (String × ℕ) → String → String → List Keyed → Type 0
Differs entity_ids entity relation keyed =
    All (λ (k : Keyed). relation ≡ k.0.1 → lookup entity entity_ids ≡ lookup k.0.0 entity_ids → ⊥)
      keyed

module _ (entity_ids relation_ids : List (String × ℕ)) (types domains : List (String × String))
    {l : TypeBlockedLayout}
    (built : build_layout_from_public_ids entity_ids relation_ids types domains ≡ ok l) where
  Differs-Unwritten :
      (entity relation : String) (keyed : List Keyed) (i : ℕ)
      → Differs entity_ids entity relation keyed
      → address l entity relation ≡ ok (some i)
      → Unwritten l i keyed
  Differs-Unwritten entity relation [] i d a = tt
  Differs-Unwritten entity relation (k ∷ keyed) i d a = (
    λ h.
        let q =
          address-injective entity_ids relation_ids types domains entity relation k.0.0 k.0.1 built
            a h in
        d.0 q.0 q.1,
    Differs-Unwritten entity relation keyed i d.1 a,
  )

  -- In a layout that `build_layout_from_public_ids` returns, when `build_owner_vector` accepts a
  -- list of keys with their descriptors, `lookup_cleartext` of the vector returns the descriptor
  -- of each of its keys, if every later key of the list has another relation or an entity with
  -- another identifier.
  pub lookup_cleartext-build_owner_vector :
      (before : List Keyed) (entity relation : String) (descriptor : ℕ) (after : List Keyed)
      {vector : List ℕ}
      → Differs entity_ids entity relation after
      → build_owner_vector l (before ++ ((entity, relation), descriptor) ∷ after) ≡ ok vector
      → lookup_cleartext (vector ∷ []) l entity relation ≡ ok (descriptor ∷ [])
  unfolding build_owner_vector lookup_cleartext
  lookup_cleartext-build_owner_vector before entity relation descriptor after {vector} d h =
      let k : Keyed = ((entity, relation), descriptor) in
      let (rows, t, written) = >>=-eq-ok (total_rows l) _ h in
      let w =
        write_descriptors-Held l before k after (replicate rows 0)
          (λ i a. Differs-Unwritten entity relation after i d a) written in
      rw (w.addressed, w.cell) refl

  -- In a layout that `build_layout_from_public_ids` returns, when `build_owner_vector` accepts a
  -- list of keys, `lookup_cleartext` of the vector returns zero for a key that `address` answers,
  -- with a row or without one, if every key of the list has another relation or an entity with
  -- another identifier.
  pub lookup_cleartext_absent :
      (keyed : List Keyed) (entity relation : String) {vector : List ℕ} (row : Option ℕ)
      → address l entity relation ≡ ok row
      → Differs entity_ids entity relation keyed
      → build_owner_vector l keyed ≡ ok vector
      → lookup_cleartext (vector ∷ []) l entity relation ≡ ok (0 ∷ [])
  unfolding build_owner_vector lookup_cleartext
  lookup_cleartext_absent keyed entity relation {vector} none a d h = rw a refl
  lookup_cleartext_absent keyed entity relation {vector} (some i) a d h =
      let (rows, t, written) = >>=-eq-ok (total_rows l) _ h in
      let low : i < rows =
        address-lt-total_rows entity_ids relation_ids types domains entity relation built a t in
      let cell : get_elem? vector i ≡ some 0 =
        write_descriptors-keeps l i keyed (replicate rows 0)
          (Differs-Unwritten entity relation keyed i d a) written
        ∙ get_elem?-replicate {A = ℕ} rows i 0 low in
      rw (a, cell) refl
