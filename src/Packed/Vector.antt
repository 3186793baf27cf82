-- ===== src/Packed/Vector.antt =====
-- `packed_owner_capacity_report` and `packed_owner_vector`.
pub mod Buckets
pub mod Lossless
pub mod Counting
pub mod Capacity
use fed_kg_rag_secure_impl.Prelude.{
  ℕ, zero, suc, ◌+◌, ◌-◌, ◌≡◌, String, Bool, true, false, Option, none, some, List, [], ◌∷◌, ◌++◌,
  map, ltb, leb, not, ◌&&◌, arith, length, replicate, max, if◌then◌else◌,
}
use fed_kg_rag_secure_impl.Python.{
  Result, ok, err, value_error, index_error, ◌>>=◌, ◌>>◌, raise_if, contains, lookup, insert,
  string_key, pair_key, nat_key, Key,
}
use fed_kg_rag_secure_impl.Python.Counter.{Counter, count_of, increment, largest, overflowing}
use fed_kg_rag_secure_impl.Config.{PublicConfig, entity_count, relation_frontier_per_owner}
use fed_kg_rag_secure_impl.Packed.{require_packed_config}
use fed_kg_rag_secure_impl.Packed.Edges.{Row, Edge, validated_edge, pack}

abbrev pub edge_key : Edge → ℕ × ℕ
edge_key e = (e.source, e.relation)

-- `buckets[i].append(v)`
unfoldable pub append_at : List (List ℕ) → ℕ → ℕ → Result (List (List ℕ))
append_at [] i v = err index_error
append_at (b ∷ bs) zero v = ok ((b ++ v ∷ []) ∷ bs)
append_at (b ∷ bs) (suc i) v = do rest ← append_at bs i v; ok (b ∷ rest)

-- The first loop of `packed_owner_vector`.
unfoldable pub fill_buckets :
    PublicConfig → List Row → List (List ℕ) → Counter (ℕ × ℕ) → Result (List (List ℕ))
fill_buckets c [] buckets counts = ok buckets
fill_buckets c (row ∷ rows) buckets counts = do
  e ← validated_edge c row
  raise_if (ltb (relation_frontier_per_owner c) (count_of (edge_key e) counts + 1)) value_error
  packed ← pack c e
  next ← append_at buckets e.source packed
  fill_buckets c rows next (increment (edge_key e) counts)

-- The second loop: every bucket is padded to the fanout.
unfoldable pub flatten_buckets : ℕ → List (List ℕ) → Result (List ℕ)
flatten_buckets fanout [] = ok []
flatten_buckets fanout (b ∷ bs) = do
  raise_if (ltb fanout (length b)) value_error
  rest ← flatten_buckets fanout bs
  ok (b ++ (replicate (fanout - length b) 0 ++ rest))

unfoldable pub packed_owner_vector : PublicConfig → String → List Row → Result (List ℕ)
packed_owner_vector c owner rows = do
  require_packed_config c
  raise_if (not (contains owner c.owners)) value_error
  buckets ← fill_buckets c rows (replicate (entity_count c) []) []
  flatten_buckets c.fanout_per_owner buckets

pub record CapacityReport : Type 0 where
  pub edge_count : ℕ
  pub nonempty_source_buckets : ℕ
  pub nonempty_source_relation_buckets : ℕ
  pub required_fanout_per_owner : ℕ
  pub required_relation_fanout_per_owner : ℕ
  pub configured_fanout_per_owner : ℕ
  pub configured_relation_fanout_per_owner : ℕ
  pub source_overflow_bucket_count : ℕ
  pub source_relation_overflow_bucket_count : ℕ
  pub supplied_input_fits_declared_capacity : Bool

-- The counting loop of the report.
unfoldable pub count_edges :
    PublicConfig → List Row → Counter ℕ → Counter (ℕ × ℕ) → Result (Counter ℕ × Counter (ℕ × ℕ))
count_edges c [] sources relations = ok (sources, relations)
count_edges c (row ∷ rows) sources relations = do
  e ← validated_edge c row
  count_edges c rows (increment e.source sources) (increment (edge_key e) relations)

unfoldable pub report_of : PublicConfig → ℕ → Counter ℕ → Counter (ℕ × ℕ) → CapacityReport
report_of c edge_count sources relations = record {
  edge_count = edge_count;
  nonempty_source_buckets = length sources;
  nonempty_source_relation_buckets = length relations;
  required_fanout_per_owner = largest sources;
  required_relation_fanout_per_owner = largest relations;
  configured_fanout_per_owner = c.fanout_per_owner;
  configured_relation_fanout_per_owner = relation_frontier_per_owner c;
  source_overflow_bucket_count = overflowing c.fanout_per_owner sources;
  source_relation_overflow_bucket_count = overflowing (relation_frontier_per_owner c) relations;
  supplied_input_fits_declared_capacity =
      leb (largest sources) c.fanout_per_owner
      && leb (largest relations) (relation_frontier_per_owner c);
}

unfoldable pub packed_owner_capacity_report :
    PublicConfig → String → List Row → Result CapacityReport
packed_owner_capacity_report c owner rows = do
  require_packed_config c
  raise_if (not (contains owner c.owners)) value_error
  (sources, relations) ← count_edges c rows [] []
  ok (report_of c (length rows) sources relations)
