-- ===== src/CompactDirectory/Lookup.antt =====
-- compact_directory.py, `lookup_cleartext`: the lookup of a tag in the tables of all owners.
use fed_kg_rag_secure_impl.Prelude.{
  ℕ, ◌+◌, ◌*◌, ◌<◌, ◌≤◌, ◌≡◌, ap, refl, sym, subst, ◌∙◌, arith, inl, inr, List, [], ◌∷◌, length,
  map, All, get_elem?-get_or,
}
use fed_kg_rag_secure_impl.Python.{Result, ok, err, ◌>>=◌, >>=-eq-ok, ok-injective, map_result}
use fed_kg_rag_secure_impl.Python.Sequence.{get_item}
use fed_kg_rag_secure_impl.Config.{range_from}
use fed_kg_rag_secure_impl.CompactDirectory.{
  TableShape, sum_at, scan_columns, slot_columns, bucket_of, build_owner_table, lookup_cleartext,
}
use fed_kg_rag_secure_impl.CompactDirectory.Buckets.{bucket_of-lt}
use fed_kg_rag_secure_impl.CompactDirectory.Table.{position, cell_of, position-lt}
use fed_kg_rag_secure_impl.CompactDirectory.Build.{
  DistinctKeys, descriptor_of, IsAnswer, build_owner_table-IsAnswer,
}
use fed_kg_rag_secure_impl.CompactDirectory.Columns.{scan_columns_keeps, scan_columns_finds}

-- Every owner builds its own table with its own index.
unfoldable pub owner_tables : TableShape → ℕ → List (List (ℕ × ℕ)) → Result (List (List ℕ))
owner_tables s owner [] = ok []
owner_tables s owner (items ∷ owners) = do
  table ← build_owner_table s owner items
  tables ← owner_tables s (owner + 1) owners
  ok (table ∷ tables)

get_item-cell_of :
    (table : List ℕ) (i : ℕ) → i < length table → get_item table i ≡ ok (cell_of table i)
get_item-cell_of table i h = rw (get_elem?-get_or table i 0 h) refl

module _ (s : TableShape) (tag bucket : ℕ) (inside : bucket < s.buckets) where
  -- The tables of the owners from `owner` on answer the lookup of the tag.
  Answer : ℕ → List (List (ℕ × ℕ)) → List (List ℕ) → Type 0
  Answer owner [] [] = Unit
  Answer owner [] (table ∷ tables) = ⊥
  Answer owner (items ∷ owners) [] = ⊥
  Answer owner (items ∷ owners) (table ∷ tables) =
      IsAnswer s tag bucket owner (descriptor_of tag items) table × Answer (owner + 1) owners tables

  owner_tables-Answer :
      (owner : ℕ) (owners : List (List (ℕ × ℕ))) {tables : List (List ℕ)}
      → bucket_of tag s.buckets ≡ ok bucket
      → owner + length owners ≤ s.owner_count
      → All DistinctKeys owners
      → owner_tables s owner owners ≡ ok tables
      → Answer owner owners tables
  unfolding Answer owner_tables
  owner_tables-Answer owner [] hash fits all h = subst (Answer owner []) (ok-injective h) tt
  owner_tables-Answer owner (items ∷ owners) hash fits all h =
      let (table, built, h1) = >>=-eq-ok (build_owner_table s owner items) _ h in
      let (tables, rest, h2) = >>=-eq-ok (owner_tables s (owner + 1) owners) _ h1 in
      subst (Answer owner (items ∷ owners)) (ok-injective h2) (
        build_owner_table-IsAnswer s tag bucket owner items (omega arith) hash all.0 built,
        owner_tables-Answer (owner + 1) owners hash (omega arith) all.1 rest,
      )

  read_cell :
      {owner d : ℕ} {table : List ℕ} (o u : ℕ)
      → IsAnswer s tag bucket owner d table
      → o < s.owner_count
      → u < s.slots
      → get_item table (position s bucket o u) ≡ ok (cell_of table (position s bucket o u))
  read_cell {table} o u answer h k = get_item-cell_of table (position s bucket o u) (
      subst (λ (n : ℕ). position s bucket o u < n) (sym answer.row.size)
        (position-lt s bucket o u inside h k))

  -- The columns of an earlier owner are zero in every table.
  sum_at-earlier :
      (owner o u : ℕ) (owners : List (List (ℕ × ℕ))) (tables : List (List ℕ))
      → Answer owner owners tables
      → o < owner
      → o < s.owner_count
      → u < s.slots
      → sum_at (position s bucket o u) tables ≡ ok 0
  unfolding Answer sum_at
  sum_at-earlier owner o u [] [] all h k l = refl
  sum_at-earlier owner o u [] (table ∷ tables) all h k l = elim all [ ]
  sum_at-earlier owner o u (items ∷ owners) [] all h k l = elim all [ ]
  sum_at-earlier owner o u (items ∷ owners) (table ∷ tables) all h k l =
      rw
        (
          read_cell o u all.0 k l,
          sum_at-earlier (owner + 1) o u owners tables all.1 (omega arith) k l,
          all.0.row.empty o u (λ e. omega arith) k l,
        )
        refl

  sum_at-own :
      (owner u : ℕ) (items : List (ℕ × ℕ)) (owners : List (List (ℕ × ℕ))) (table : List ℕ)
      (tables : List (List ℕ))
      → Answer owner (items ∷ owners) (table ∷ tables)
      → owner < s.owner_count
      → u < s.slots
      → sum_at (position s bucket owner u) (table ∷ tables)
        ≡ ok (cell_of table (position s bucket owner u))
  unfolding Answer sum_at
  sum_at-own owner u items owners table tables all k l =
      rw
        (
          read_cell owner u all.0 k l,
          sum_at-earlier (owner + 1) owner u owners tables all.1 (omega arith) k l,
        )
        (ap ok (omega arith))

  sum_at-later :
      (owner o u : ℕ) (items : List (ℕ × ℕ)) (owners : List (List (ℕ × ℕ))) (table : List ℕ)
      (tables : List (List ℕ))
      → Answer owner (items ∷ owners) (table ∷ tables)
      → owner < o
      → o < s.owner_count
      → u < s.slots
      → sum_at (position s bucket o u) (table ∷ tables) ≡ sum_at (position s bucket o u) tables
  unfolding Answer sum_at
  sum_at-later owner o u items owners table tables all h k l =
      rw (read_cell o u all.0 k l, all.0.row.empty o u (λ e. omega arith) k l)
        (unchanged (sum_at (position s bucket o u) tables))
    where
      unchanged : (r : Result ℕ) → (r >>= λ rest. ok (0 + rest)) ≡ r
      unchanged (ok n) = ap ok (omega arith)
      unchanged (err e) = refl

  -- The scan of one owner's columns.
  scan-answer :
      (owner d : ℕ) (table : List ℕ) (whole : List (List ℕ))
      → IsAnswer s tag bucket owner d table
      → ((u : ℕ)
          → u < s.slots
          → sum_at (position s bucket owner u) whole
            ≡ ok (cell_of table (position s bucket owner u)))
      → scan_columns s whole tag bucket (slot_columns owner s.slots) 0 ≡ ok d
  unfolding slot_columns
  scan-answer owner d table whole answer sums = elim answer.here [
    | inl (counts, key) ↦
        scan_columns_finds s whole tag bucket owner d
          (λ u. cell_of table (position s bucket owner u)) sums answer.row.answers 0 s.slots
          (owner * s.slots) key.slot 0 (omega arith) (omega arith) (omega arith) key.small key.found
    | inr absent ↦
        scan_columns_keeps s whole tag bucket owner d
          (λ u. cell_of table (position s bucket owner u)) sums answer.row.answers 0 s.slots
          (owner * s.slots) (omega arith) (omega arith) (sym absent)
  ]

  scan_owners :
      (owner : ℕ) (owners : List (List (ℕ × ℕ))) (tables whole : List (List ℕ))
      → Answer owner owners tables
      → owner + length owners ≤ s.owner_count
      → ((o u : ℕ)
          → owner ≤ o
          → o < s.owner_count
          → u < s.slots
          → sum_at (position s bucket o u) whole ≡ sum_at (position s bucket o u) tables)
      → map_result
          (λ o. scan_columns s whole tag bucket (slot_columns o s.slots) 0)
          (range_from owner (length owners))
        ≡ ok (map (descriptor_of tag) owners)
  unfolding Answer
  scan_owners owner [] tables whole all fits same = refl
  scan_owners owner (items ∷ owners) [] whole all fits same = elim all [ ]
  scan_owners owner (items ∷ owners) (table ∷ tables) whole all fits same =
      let first = scan-answer owner (descriptor_of tag items) table whole all.0 (λ u k.
        same owner u (omega arith) (omega arith) k
        ∙ sum_at-own owner u items owners table tables all (omega arith) k) in
      let rest = scan_owners (owner + 1) owners tables whole all.1 (omega arith) (λ o u h k l.
        same o u (omega arith) k l
        ∙ sum_at-later owner o u items owners table tables all (omega arith) k l) in
      rw (first, rest) refl

-- When every owner has a dictionary of descriptors with distinct keys, the number of owners is the
-- declared one, every table is built with the index of its owner and the bucket of a tag is
-- defined, `lookup_cleartext` returns for each owner the descriptor of the tag in its dictionary,
-- or zero when the tag is not there.
pub lookup_cleartext-owner_tables :
    (s : TableShape) (owners : List (List (ℕ × ℕ))) (tag : ℕ) {bucket : ℕ} {tables : List (List ℕ)}
    → length owners ≡ s.owner_count
    → All DistinctKeys owners
    → owner_tables s 0 owners ≡ ok tables
    → bucket_of tag s.buckets ≡ ok bucket
    → lookup_cleartext s tables tag ≡ ok (map (descriptor_of tag) owners)
unfolding lookup_cleartext
lookup_cleartext-owner_tables s owners tag {bucket} {tables} count distinct built hash =
    let inside = bucket_of-lt tag s.buckets hash in
    let all = owner_tables-Answer s tag bucket inside 0 owners hash (omega arith) distinct built in
    let scanned =
      scan_owners s tag bucket inside 0 owners tables tables all (omega arith)
        (λ o u h k l. refl) in
    rw hash (
      subst
        (λ (n : ℕ).
          map_result (λ o. scan_columns s tables tag bucket (slot_columns o s.slots) 0)
            (range_from 0 n)
          ≡ ok (map (descriptor_of tag) owners))
        count scanned)
