-- ===== src/Tests/Pages.antt =====
-- Runs and instances of doram_t2_3pc/relation_pages.py.
use fed_kg_rag_secure_impl.Prelude.{
  ℕ, ◌+◌, ◌<◌, ◌≤◌, ◌≡◌, refl, List, [], ◌∷◌, none, some, arith, false, true, map,
}
use fed_kg_rag_secure_impl.Prelude.Bits.{bit_length}
use fed_kg_rag_secure_impl.Python.{str, ok, value_error, err}
use fed_kg_rag_secure_impl.Python.Sequence.{sort_by}
use fed_kg_rag_secure_impl.Config.{PublicConfig, entity_count, field_usable_bits}
use fed_kg_rag_secure_impl.Packed.{
  packing_widths, require_packed_config, packed_edge_bits, pack_fields, unpack_fields, pack_edge,
  unpack_edge,
}
use fed_kg_rag_secure_impl.Packed.Edges.{
  Row, parse_edge, validated_edge, pack, has_exactly, ontology_id, integer_from,
}
use fed_kg_rag_secure_impl.Pages.{
  RelationPageParameters, validate, slots_per_key, effective_frontier_per_owner, page_base_bits,
  page_count_bits, descriptor_bits, pool_rows,
}
use fed_kg_rag_secure_impl.Pages.Directory.{
  RelationPageConfig, relation_count, dense_directory_rows, directory_rows, uses_hybrid_directory,
  dense_directory_index, blocked_directory_index, pack_descriptor, unpack_descriptor,
  directory_slot, directory_columns, owners_per_directory_element,
}
use fed_kg_rag_secure_impl.Pages.Directory.Laws.{
  dense_directory_index-lt, unpack_descriptor-pack_descriptor, directory_slot_disjoint,
  directory_slot_fits,
}
use fed_kg_rag_secure_impl.Pages.Build.{
  OwnerPageLayout, pages_needed, group_rows, grouped_edges, pack_entry, make_page, make_pages,
  write_descriptor, place_key, place_keys, build_owner_page_layout,
}
use fed_kg_rag_secure_impl.Pages.Build.Shape.{
  HasPublicShape, build_owner_page_layout-HasPublicShape,
}
use fed_kg_rag_secure_impl.Pages.Read.Complete.{ReadsKey, read_owner-ReadsKey}
use fed_kg_rag_secure_impl.Pages.Ranking.{IsTop, rank-IsTop}
use fed_kg_rag_secure_impl.Pages.Evaluate.{
  ResultRow, Candidate, evaluate_paged_cleartext, parse_query, layouts_for, read_key, read_owner,
  find_descriptor, read_window, read_page, read_slot, compacted, global_compaction, join_frontier,
  rank, select, result_rows,
}
use fed_kg_rag_secure_impl.Tests.Config.{two_owners, two_owners-IsValid}
use fed_kg_rag_secure_impl.Tests.Packed.{two_rows, edge_number, second_number, row}

abbrev bounds : RelationPageParameters
bounds = record {
  page_size = 2;
  pages_per_key = 2;
  page_budget = 4;
  frontier_per_owner = some 3;
  global_frontier = none;
  directory_buckets = none;
  bucket_slots = none;
  partition_residual_by_relation = false;
}

abbrev pub paged : RelationPageConfig
paged = record { base = two_owners; pages = bounds; type_blocks = none }

validate-bounds_ok : validate bounds ≡ ok tt
unfolding validate slots_per_key
validate-bounds_ok = refl

validate_buckets : validate (record bounds { directory_buckets = some 4 }) ≡ err value_error
unfolding validate slots_per_key
validate_buckets = refl

abbrev two_keys : OwnerPageLayout
two_keys = record {
  owner = "a";
  directory = 0 ∷ 0 ∷ 5 ∷ 6 ∷ 0 ∷ 0 ∷ 0 ∷ 0 ∷ [];
  pages =
      (0 ∷ 0 ∷ [])
      ∷ (edge_number ∷ 0 ∷ [])
      ∷ (second_number ∷ 0 ∷ [])
      ∷ (0 ∷ 0 ∷ [])
      ∷ (0 ∷ 0 ∷ [])
      ∷ [];
  realized_page_count = 3;
  residual_descriptors = some [];
}

build-two_keys : build_owner_page_layout paged "a" two_rows ≡ ok two_keys
unfolding build_owner_page_layout grouped_edges group_rows validated_edge parse_edge pack
    has_exactly ontology_id integer_from pack_edge pack_fields require_packed_config packing_widths
    bit_length entity_count packed_edge_bits field_usable_bits directory_rows dense_directory_rows
    relation_count place_keys place_key pages_needed effective_frontier_per_owner make_pages
    make_page pack_entry sort_by pack_descriptor page_base_bits blocked_directory_index
    dense_directory_index write_descriptor pool_rows
build-two_keys = refl

build_owner_page_layout-HasPublicShape_example : HasPublicShape paged two_keys
build_owner_page_layout-HasPublicShape_example =
    build_owner_page_layout-HasPublicShape paged "a" two_rows (omega arith) (omega arith)
      build-two_keys

inside-two_owners : 1 < entity_count two_owners
unfolding entity_count
inside-two_owners = omega arith

id-two_owners : 2 ≤ relation_count paged
unfolding relation_count
id-two_owners = omega arith

read_owner-ReadsKey_example : ReadsKey paged two_rows two_keys 1 2
read_owner-ReadsKey_example =
    read_owner-ReadsKey paged "a" two_rows 1 2 two_owners-IsValid validate-bounds_ok refl
      (omega arith) inside-two_owners (omega arith) id-two_owners build-two_keys

index-two_owners : dense_directory_index paged 1 2 ≡ ok 3
unfolding dense_directory_index entity_count relation_count
index-two_owners = refl

rows-two_owners : 3 < dense_directory_rows paged
rows-two_owners = dense_directory_index-lt paged 1 2 index-two_owners

packed-descriptor : pack_descriptor paged 2 1 ≡ ok 6
unfolding pack_descriptor page_base_bits bit_length
packed-descriptor = refl

unpack_descriptor-pack_descriptor_example : unpack_descriptor paged 6 ≡ (2, 1)
unpack_descriptor-pack_descriptor_example =
    unpack_descriptor-pack_descriptor paged 2 1 packed-descriptor

same_column : (directory_slot paged 0).0 ≡ (directory_slot paged 1).0
unfolding directory_slot owners_per_directory_element field_usable_bits descriptor_bits
    page_base_bits page_count_bits bit_length
same_column = refl

directory_slot_disjoint_example :
    (directory_slot paged 0).1 + descriptor_bits paged.pages ≤ (directory_slot paged 1).1
directory_slot_disjoint_example = directory_slot_disjoint paged 0 1 (omega arith) same_column

room-two_owners : descriptor_bits paged.pages ≤ field_usable_bits two_owners
unfolding descriptor_bits page_base_bits page_count_bits bit_length field_usable_bits
room-two_owners = omega arith

directory_slot_fits_example :
    ((directory_slot paged 1).0 < directory_columns paged)
    × ((directory_slot paged 1).1 + descriptor_bits paged.pages ≤ field_usable_bits two_owners)
directory_slot_fits_example = directory_slot_fits paged 1 (omega arith) room-two_owners

abbrev pub query : Row
query = ("source", str "y") ∷ ("relation_1", str "r") ∷ ("relation_2", str "s") ∷ []

abbrev pub second_rows : List Row
second_rows = row "z" "s" "x" 7 5 ∷ []

-- Two hops across two owners: y -r-> z at owner "a", z -s-> x at owner "b".
two_hops :
    evaluate_paged_cleartext paged (("a", two_rows) ∷ ("b", second_rows) ∷ []) query none
    ≡ ok (
        record { valid = 1; left_evidence = 9; right_evidence = 7; score = 105 }
        ∷ record { valid = 0; left_evidence = 0; right_evidence = 0; score = 0 }
        ∷ [])
unfolding evaluate_paged_cleartext parse_query layouts_for read_key read_owner find_descriptor
    read_window read_page read_slot compacted global_compaction join_frontier rank select
    result_rows unpack_descriptor unpack_edge unpack_fields slots_per_key uses_hybrid_directory
    build_owner_page_layout grouped_edges group_rows validated_edge parse_edge pack has_exactly
    ontology_id integer_from pack_edge pack_fields require_packed_config packing_widths bit_length
    entity_count packed_edge_bits field_usable_bits directory_rows dense_directory_rows
    relation_count place_keys place_key pages_needed effective_frontier_per_owner make_pages
    make_page pack_entry sort_by pack_descriptor page_base_bits blocked_directory_index
    dense_directory_index write_descriptor pool_rows
two_hops = refl

abbrev path : ℕ → ℕ → ℕ → Candidate
path score order terminal = record {
  score = score;
  order = order;
  left = 1;
  right = 2;
  terminal = terminal;
}

abbrev paths : List Candidate
paths = path 5 0 1 ∷ path 9 1 2 ∷ path 7 2 2 ∷ []

abbrev deduplicated : PublicConfig
deduplicated = record two_owners { deduplicate_terminal_answers = true }

rank-IsTop_example : IsTop deduplicated paths (rank deduplicated paths)
rank-IsTop_example = rank-IsTop deduplicated paths (omega arith)

-- The second best path ends at the terminal of the best.
rank_run : map (λ (r : ResultRow). r.score) (rank deduplicated paths) ≡ 9 ∷ 5 ∷ []
unfolding rank select result_rows sort_by
rank_run = refl
