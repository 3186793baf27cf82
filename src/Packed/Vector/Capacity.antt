-- ===== src/Packed/Vector/Capacity.antt =====
-- The capacity report and the packed vector agree: the report says that the input fits exactly
-- when the vector is built.
use mathlib.Core.Option.{some-injective}
use fed_kg_rag_secure_impl.Prelude.{
  ℕ, ◌≤◌, ◌<◌, ◌≡◌, ◌↔◌, refl, sym, ap, subst, ◌∙◌, String, true, some, List, [], ◌∷◌, ltb, arith,
  length, replicate, get_elem?, length-replicate, get_elem?-replicate, Bool-cases, inl, inr, All,
  ltb→lt, get_elem?-lt,
}
use fed_kg_rag_secure_impl.Python.{
  ok, contains, string_key, pair_key, nat_key, map_result, length-map_result, ok-injective,
}
use fed_kg_rag_secure_impl.Python.Counter.{
  Counter, count_of, largest, count_all, count_of-le-largest, largest-le,
}
use fed_kg_rag_secure_impl.Config.{PublicConfig, entity_count, relation_frontier_per_owner}
use fed_kg_rag_secure_impl.Config.Validate.{IsValid}
use fed_kg_rag_secure_impl.Packed.{require_packed_config}
use fed_kg_rag_secure_impl.Packed.Edges.{Row, Edge, validated_edge, pack}
use fed_kg_rag_secure_impl.Packed.Slots.{HasSlots, validated-HasSlots}
use fed_kg_rag_secure_impl.Packed.Vector.{
  fill_buckets, flatten_buckets, packed_owner_vector, count_edges, report_of, CapacityReport,
  packed_owner_capacity_report,
}
use fed_kg_rag_secure_impl.Packed.Vector.Counting.{
  sources_of, keys_of, count_edges_lem, fill_buckets_total, count_of-from_source,
  fill_buckets_bounded, flatten_buckets_total,
}
use fed_kg_rag_secure_impl.Packed.Vector.Lossless.{
  flatten_buckets-Flattened, Blocks, Built, packed_owner_vector-Built,
}
use fed_kg_rag_secure_impl.Packed.Vector.Buckets.{from_source, fill_buckets-Filled}

record Counted (c : PublicConfig) (owner : String) (rows : List Row) (r : CapacityReport)
    : Type 0 where
  counters : Counter ℕ × Counter (ℕ × ℕ)
  packable : require_packed_config c ≡ ok tt
  known : contains owner c.owners ≡ true
  counted : count_edges c rows [] [] ≡ ok counters
  reported : r ≡ report_of c (length rows) counters.0 counters.1

packed_owner_capacity_report-Counted :
    (c : PublicConfig) (owner : String) (rows : List Row) {r : CapacityReport}
    → packed_owner_capacity_report c owner rows ≡ ok r
    → Counted c owner rows r
unfolding packed_owner_capacity_report
packed_owner_capacity_report-Counted c owner rows h = ground arith

slots_exist :
    (c : PublicConfig) (es : List Edge)
    → All (HasSlots c) es
    → All (λ (e : Edge). e.source < entity_count c) es
unfolding entity_count
slots_exist c [] h = tt
slots_exist c (e ∷ es) h = (omega (arith, h.0.source.1), slots_exist c es h.1)

from_source_absent :
    (n slot : ℕ) (es : List Edge)
    → All (λ (e : Edge). e.source < n) es
    → n ≤ slot
    → length (from_source slot es) ≡ 0
from_source_absent n slot [] h k = refl
from_source_absent n slot (e ∷ es) h k = ground (arith, from_source_absent n slot es h.1 k)

-- The bucket of a slot is as long as its count in the report.
length-bucket :
    (c : PublicConfig) (slot : ℕ) (es : List Edge) (ps : List ℕ)
    → map_result (pack c) (from_source slot es) ≡ ok ps
    → length ps ≡ count_of slot (count_all (sources_of es) [])
length-bucket c slot es ps h =
    length-map_result (pack c) (from_source slot es) h
    ∙ omega (arith, count_of-from_source es slot [])

module _ (c : PublicConfig) (rows : List Row) (v : IsValid c) (es : List Edge)
    (validated : map_result (validated_edge c) rows ≡ ok es) where
  slots : All (λ (e : Edge). e.source < entity_count c) es
  slots = slots_exist c es (validated-HasSlots c rows es v validated)

  -- The bucket at a slot holds the packed edges of that slot.
  filled_bucket :
      (buckets : List (List ℕ)) (slot : ℕ)
      → fill_buckets c rows (replicate (entity_count c) []) [] ≡ ok buckets
      → slot < entity_count c
      → (b : List ℕ) × (get_elem? buckets slot ≡ some b)
        × (length b ≡ count_of slot (count_all (sources_of es) []))
  filled_bucket buckets slot filled k =
      let f = fill_buckets-Filled c rows (replicate (entity_count c) []) [] filled in
      let same : f.edges ≡ es = ok-injective (sym f.validated ∙ validated) in
      let (ps, m, g) = f.bucket slot [] (get_elem?-replicate (entity_count c) slot [] k) in
      (
        ps,
        g,
        length-bucket c slot es ps
            (subst (λ (x : List Edge). map_result (pack c) (from_source slot x) ≡ ok ps) same m),
      )

  -- Report, then vector.
  vector_total :
      largest (count_all (sources_of es) []) ≤ c.fanout_per_owner
      → largest (count_all (keys_of es) []) ≤ relation_frontier_per_owner c
      → (buckets : List (List ℕ)) × (flat : List ℕ) × (fill_buckets c rows
            (replicate (entity_count c) [])
            []
          ≡ ok buckets)
        × (flatten_buckets c.fanout_per_owner buckets ≡ ok flat)
  vector_total sources keys =
      let height = length-replicate {A = List ℕ} (entity_count c) [] in
      let (out, filled) =
        fill_buckets_total c rows es (replicate (entity_count c) []) [] validated
          (subst (λ (n : ℕ). All (λ (e : Edge). e.source < n) es) (sym height) slots) keys in
      let same_height =
        (fill_buckets-Filled c rows (replicate (entity_count c) []) [] filled).same_length in
      let (flat, flattened) = flatten_buckets_total c.fanout_per_owner out (λ slot b g.
        let (b', g', counted) =
          filled_bucket out slot filled
            (omega (arith, get_elem?-lt out slot g, same_height, height)) in
        let eq : b' ≡ b = some-injective b' b (sym g' ∙ g) in
        omega (
          arith,
          ap length eq,
          counted,
          count_of-le-largest slot (count_all (sources_of es) []),
        )) in
      (out, flat, filled, flattened)

  -- Vector, then report.
  counts_small :
      (flat : List ℕ)
      → Built c rows flat
      → (largest (count_all (sources_of es) []) ≤ c.fanout_per_owner)
        × (largest (count_all (keys_of es) []) ≤ relation_frontier_per_owner c)
  counts_small flat built =
      let (es', v', bound) =
        fill_buckets_bounded c rows (replicate (entity_count c) []) [] built.filled (omega arith) in
      let same : es' ≡ es = ok-injective (sym v' ∙ validated) in
      (
        largest-le (sources_of es) [] c.fanout_per_owner (omega arith) small,
        subst
            (λ (x : List Edge). largest (count_all (keys_of x) []) ≤ relation_frontier_per_owner c)
            same bound,
      )
    where
      blocks : Blocks c.fanout_per_owner built.buckets flat
      blocks = (flatten_buckets-Flattened c.fanout_per_owner built.buckets built.flattened).blocks

      small : (slot : ℕ) → count_of slot (count_all (sources_of es) []) ≤ c.fanout_per_owner
      small slot = elim (Bool-cases (ltb slot (entity_count c))) [
        | inl inside ↦
            let (b, g, counted) =
              filled_bucket built.buckets slot built.filled (ltb→lt _ _ inside) in
            omega (arith, counted, (blocks slot b g).0)
        | inr outside ↦ ground (
          arith,
          count_of-from_source es slot [],
          from_source_absent (entity_count c) slot es slots (ground arith),
        )
      ]

report_of_fits :
    (c : PublicConfig) (n : ℕ) (s : Counter ℕ) (r : Counter (ℕ × ℕ))
    → ((report_of c n s r).supplied_input_fits_declared_capacity ≡ true)
      ↔ ((largest s ≤ c.fanout_per_owner) × (largest r ≤ relation_frontier_per_owner c))
unfolding report_of
report_of_fits c n s r = ground arith

-- For a valid configuration and a report that `packed_owner_capacity_report` returns, the report
-- says that the input fits exactly when `packed_owner_vector` returns a vector for the same input.
pub report_fits_iff :
    (c : PublicConfig) (owner : String) (rows : List Row) {r : CapacityReport}
    → IsValid c
    → packed_owner_capacity_report c owner rows ≡ ok r
    → (r.supplied_input_fits_declared_capacity ≡ true)
      ↔ ((flat : List ℕ) × (packed_owner_vector c owner rows ≡ ok flat))
unfolding packed_owner_vector
report_fits_iff c owner rows {r} v h =
    let n = packed_owner_capacity_report-Counted c owner rows h in
    let (es, validated, counters) = count_edges_lem c rows [] [] n.counted in
    let same = n.reported ∙ ap (λ x. report_of c (length rows) x.0 x.1) counters in
    let test =
      report_of_fits c (length rows) (count_all (sources_of es) []) (count_all (keys_of es) []) in
    (
      λ fits.
          let small =
            test.0 (subst (λ x. x.supplied_input_fits_declared_capacity ≡ true) same fits) in
          let (out, flat, filled, flattened) = vector_total c rows v es validated small.0 small.1 in
          (flat, rw (n.packable, n.known, filled, flattened)),
      λ built.
          subst (λ x. x.supplied_input_fits_declared_capacity ≡ true) (sym same)
            (test.1 (
              counts_small c rows v es validated built.0
                (packed_owner_vector-Built c owner rows built.1))),
    )
