-- ===== src/Tests/TypeBlocks.antt =====
-- Runs and instances of doram_t2_3pc/type_blocked_directory.py.
use fed_kg_rag_secure_impl.Prelude.{
  ℕ, ◌≤◌, ◌<◌, ◌≡◌, refl, sym, String, Option, List, [], ◌∷◌, none, some,
}
use fed_kg_rag_secure_impl.Python.{ok, err, value_error, lookup, string_key}
use fed_kg_rag_secure_impl.Python.Sequence.{sort_by}
use fed_kg_rag_secure_impl.Config.{sorted}
use fed_kg_rag_secure_impl.TypeBlocks.{
  TypeBlockedLayout, build_layout_from_public_ids, group_by_type, place_types, place_blocks,
  names_in_order, address, block_of, total_rows, build_owner_vector, lookup_cleartext,
  write_descriptors,
}
use fed_kg_rag_secure_impl.TypeBlocks.Rows.{address-injective}
use fed_kg_rag_secure_impl.TypeBlocks.Vector.{
  lookup_cleartext-build_owner_vector, lookup_cleartext_absent,
}
use fed_kg_rag_secure_impl.TypeBlocks.Height.{address-lt-total_rows}

abbrev entities : List (String × ℕ)
entities = ("ann", 1) ∷ ("bob", 2) ∷ ("rome", 3) ∷ []

abbrev relations : List (String × ℕ)
relations = ("capital", 2) ∷ ("knows", 1) ∷ []

abbrev types : List (String × String)
types = ("ann", "person") ∷ ("bob", "person") ∷ ("rome", "city") ∷ []

abbrev domains : List (String × String)
domains = ("knows", "person") ∷ ("capital", "city") ∷ []

abbrev blocked : TypeBlockedLayout
blocked = record {
  entity_order = "ann" ∷ "bob" ∷ "rome" ∷ [];
  entity_index = entities;
  type_start = ("\0dummy", 0) ∷ ("person", 1) ∷ ("city", 3) ∷ [];
  type_size = ("\0dummy", 1) ∷ ("person", 2) ∷ ("city", 1) ∷ [];
  relation_order = "knows" ∷ "capital" ∷ [];
  block_start = ("knows", 1) ∷ ("capital", 3) ∷ [];
  relation_domain = domains;
}

built : build_layout_from_public_ids entities relations types domains ≡ ok blocked
unfolding build_layout_from_public_ids group_by_type place_types place_blocks names_in_order sort_by
    sorted
built = refl

bob_knows : address blocked "bob" "knows" ≡ ok (some 2)
unfolding address block_of
bob_knows = refl

bob_capital : address blocked "bob" "capital" ≡ ok none
unfolding address block_of
bob_capital = refl

height : total_rows blocked ≡ ok 4
unfolding total_rows
height = refl

vector : build_owner_vector blocked ((("bob", "knows"), 9) ∷ []) ≡ ok (0 ∷ 0 ∷ 9 ∷ 0 ∷ [])
unfolding build_owner_vector write_descriptors address block_of total_rows
vector = refl

refused : build_owner_vector blocked ((("bob", "capital"), 9) ∷ []) ≡ err value_error
unfolding build_owner_vector write_descriptors address block_of total_rows
refused = refl

address-injective_example :
    (◌≡◌ {A = String} "knows" "knows") × (lookup "bob" entities ≡ lookup "bob" entities) × (1 ≤ 2)
address-injective_example =
    address-injective entities relations types domains "bob" "knows" "bob" "knows" built bob_knows
      bob_knows

address-lt-total_rows_example : ◌<◌ 2 4
address-lt-total_rows_example =
    address-lt-total_rows entities relations types domains "bob" "knows" built bob_knows height

ann_knows : address blocked "ann" "knows" ≡ ok (some 1)
unfolding address block_of
ann_knows = refl

two_not_one : ◌≡◌ {A = Option ℕ} (some 2) (some 1) → ⊥
two_not_one h = cc

abbrev two_keys : List ((String × String) × ℕ)
two_keys = (("bob", "knows"), 9) ∷ (("ann", "knows"), 7) ∷ []

two_keys_vector : build_owner_vector blocked two_keys ≡ ok (0 ∷ 7 ∷ 9 ∷ 0 ∷ [])
unfolding build_owner_vector write_descriptors address block_of total_rows
two_keys_vector = refl

lookup_cleartext-build_owner_vector_example :
    lookup_cleartext ((0 ∷ 7 ∷ 9 ∷ 0 ∷ []) ∷ []) blocked "bob" "knows" ≡ ok (9 ∷ [])
lookup_cleartext-build_owner_vector_example =
    lookup_cleartext-build_owner_vector entities relations types domains built [] "bob" "knows" 9
      ((("ann", "knows"), 7) ∷ []) (λ same ids. two_not_one ids, tt) two_keys_vector

lookup_cleartext_absent_example :
    lookup_cleartext ((0 ∷ 0 ∷ 9 ∷ 0 ∷ []) ∷ []) blocked "ann" "knows" ≡ ok (0 ∷ [])
lookup_cleartext_absent_example =
    lookup_cleartext_absent entities relations types domains built ((("bob", "knows"), 9) ∷ [])
      "ann" "knows" (some 1) ann_knows (λ same ids. two_not_one (sym ids), tt) vector
