-- ===== src/Tests/Packed.antt =====
-- Runs and instances of doram_t2_3pc/packed.py.
use fed_kg_rag_secure_impl.Prelude.{
  ℕ, ◌+◌, ◌*◌, ◌≡◌, ◌↔◌, refl, String, List, [], ◌∷◌, map, true, arith,
}
use fed_kg_rag_secure_impl.Python.{str, ok, ◌>>=◌}
use fed_kg_rag_secure_impl.Sharing.{element}
use fed_kg_rag_secure_impl.Prelude.Bits.{bit_length}
use fed_kg_rag_secure_impl.Config.{entity_count, field_usable_bits, relation_frontier_per_owner}
use fed_kg_rag_secure_impl.Packed.{
  packing_widths, pack_edge, unpack_edge, require_packed_config, packed_edge_bits, pack_fields,
  unpack_fields,
}
use fed_kg_rag_secure_impl.Packed.RoundTrip.{
  IsPackable, unpack_edge-pack_edge, pack_edge-unpack_edge,
}
use fed_kg_rag_secure_impl.Packed.Unpacks.{pack_edge-unpacks}
use fed_kg_rag_secure_impl.Packed.Edges.{
  Row, parse_edge, validated_edge, pack, has_exactly, ontology_id, integer_from,
}
use fed_kg_rag_secure_impl.Packed.Vector.{
  packed_owner_vector, packed_owner_capacity_report, CapacityReport, fill_buckets, flatten_buckets,
  append_at, count_edges, report_of,
}
use fed_kg_rag_secure_impl.Packed.Vector.Lossless.{IsLossless, packed_owner_vector-IsLossless}
use fed_kg_rag_secure_impl.Packed.Vector.Capacity.{report_fits_iff}
use fed_kg_rag_secure_impl.Tests.Config.{two_owners, two_owners-IsValid}

abbrev widths : List ℕ
widths = 2 ∷ 2 ∷ 50 ∷ 20 ∷ 1 ∷ []

two_owners-IsPackable : IsPackable two_owners widths
unfolding packing_widths bit_length entity_count
two_owners-IsPackable = record { widths = refl; scalable = refl; room = omega arith }

abbrev pub fields : List ℕ
fields = 3 ∷ 1 ∷ 9 ∷ 100 ∷ 1 ∷ []

abbrev pub edge_number : ℕ
edge_number = 3 + 4 * (1 + 4 * (9 + 1125899906842624 * (100 + 1048576)))

pub pack-fields : pack_edge two_owners (map element fields) ≡ ok edge_number
unfolding pack_edge pack_fields require_packed_config packing_widths bit_length entity_count
    packed_edge_bits field_usable_bits
pack-fields = refl

unpack-fields : unpack_edge two_owners edge_number ≡ ok fields
unfolding unpack_edge unpack_fields require_packed_config packing_widths bit_length entity_count
    packed_edge_bits field_usable_bits
unpack-fields = refl

unpack_edge-pack_edge_example :
    (pack_edge two_owners (map element fields) >>= unpack_edge two_owners) ≡ ok fields
unpack_edge-pack_edge_example =
    unpack_edge-pack_edge two_owners widths fields two_owners-IsPackable (omega arith)

pack_edge-unpack_edge_example : pack_edge two_owners (map element fields) ≡ ok edge_number
pack_edge-unpack_edge_example = pack_edge-unpack_edge two_owners edge_number unpack-fields

abbrev pub row : String → String → String → ℕ → ℕ → Row
row s r t evidence score =
    ("source", str s)
    ∷ ("relation", str r)
    ∷ ("target", str t)
    ∷ ("evidence", element evidence)
    ∷ ("score", element score)
    ∷ []

abbrev pub two_rows : List Row
two_rows = row "y" "r" "z" 9 100 ∷ row "y" "s" "z" 9 100 ∷ []

abbrev pub second_number : ℕ
second_number = 3 + 4 * (2 + 4 * (9 + 1125899906842624 * (100 + 1048576)))

abbrev vector : List ℕ
vector = 0 ∷ 0 ∷ 0 ∷ edge_number ∷ second_number ∷ 0 ∷ 0 ∷ 0 ∷ 0 ∷ 0 ∷ 0 ∷ 0 ∷ []

vector-two_rows : packed_owner_vector two_owners "a" two_rows ≡ ok vector
unfolding packed_owner_vector fill_buckets flatten_buckets append_at validated_edge parse_edge pack
    has_exactly ontology_id integer_from relation_frontier_per_owner pack_edge pack_fields
    require_packed_config packing_widths bit_length entity_count packed_edge_bits field_usable_bits
vector-two_rows = refl

packed_owner_vector-IsLossless_example : IsLossless two_owners two_rows vector
packed_owner_vector-IsLossless_example =
    packed_owner_vector-IsLossless two_owners "a" two_rows vector-two_rows

abbrev report : CapacityReport
report = record {
  edge_count = 2;
  nonempty_source_buckets = 1;
  nonempty_source_relation_buckets = 2;
  required_fanout_per_owner = 2;
  required_relation_fanout_per_owner = 1;
  configured_fanout_per_owner = 3;
  configured_relation_fanout_per_owner = 2;
  source_overflow_bucket_count = 0;
  source_relation_overflow_bucket_count = 0;
  supplied_input_fits_declared_capacity = true;
}

report-two_rows : packed_owner_capacity_report two_owners "a" two_rows ≡ ok report
unfolding packed_owner_capacity_report count_edges report_of validated_edge parse_edge pack
    has_exactly ontology_id integer_from relation_frontier_per_owner pack_edge pack_fields
    require_packed_config packing_widths bit_length entity_count packed_edge_bits field_usable_bits
report-two_rows = refl

report_fits_iff_example :
    (report.supplied_input_fits_declared_capacity ≡ true)
    ↔ ((flat : List ℕ) × (packed_owner_vector two_owners "a" two_rows ≡ ok flat))
report_fits_iff_example = report_fits_iff two_owners "a" two_rows two_owners-IsValid report-two_rows

pack_edge-unpacks_example : unpack_edge two_owners edge_number ≡ ok fields
pack_edge-unpacks_example = pack_edge-unpacks two_owners fields refl pack-fields
