-- ===== src/Config/Sizes.antt =====
-- The derived sizes of a valid configuration.
use native.Mathlib.Nat.{lt_of_mul-lt-mul_left, mul-lt-mul_of_pos_left, mul-le-mul_right, mul-le-mul}
use fed_kg_rag_secure_impl.Prelude.{ltb→lt, lt→ltb, ◌≤◌, ◌<◌, ◌≡◌, true, length, arith, ◌↔◌}
use fed_kg_rag_secure_impl.Config.{
  PublicConfig, block_edges, candidate_count, relation_frontier_per_owner, frontier_edges,
  compacted_candidate_count, uses_frontier_compaction, active_candidate_count,
}
use fed_kg_rag_secure_impl.Config.Validate.{IsValid, relation_frontier_per_owner-bounds}

pub frontier_edges-le : (c : PublicConfig) → IsValid c → frontier_edges c ≤ block_edges c
unfolding frontier_edges block_edges
frontier_edges-le c v = let bounds = relation_frontier_per_owner-bounds c v in grind arith

some_frontier_edge : (c : PublicConfig) → IsValid c → 1 ≤ frontier_edges c
unfolding frontier_edges
some_frontier_edge c v = mul-le-mul v.some_owner (relation_frontier_per_owner-bounds c v).0

some_block_edge : (c : PublicConfig) → IsValid c → 1 ≤ block_edges c
unfolding block_edges
some_block_edge c v = mul-le-mul v.some_owner v.some_fanout

-- In a valid configuration the first hop is compacted exactly when the relation bound per owner is
-- below the fanout.
pub uses_frontier_compaction_iff :
    (c : PublicConfig)
    → IsValid c
    → (uses_frontier_compaction c ≡ true) ↔ (relation_frontier_per_owner c < c.fanout_per_owner)
unfolding uses_frontier_compaction frontier_edges block_edges
uses_frontier_compaction_iff c v = (
  λ h. lt_of_mul-lt-mul_left (length c.owners) (ltb→lt _ _ h),
  λ h. lt→ltb _ _ (mul-lt-mul_of_pos_left h v.some_owner),
)

-- In a valid configuration the number of active candidates is at least 1 and at most
-- `candidate_count`.
pub active_candidate_count_bounds :
    (c : PublicConfig)
    → IsValid c
    → (1 ≤ active_candidate_count c) × (active_candidate_count c ≤ candidate_count c)
unfolding active_candidate_count compacted_candidate_count candidate_count
active_candidate_count_bounds c v =
    let f = frontier_edges c in
    let b = block_edges c in
    ground (
      arith,
      mul-le-mul_right b (frontier_edges-le c v),
      mul-le-mul (some_frontier_edge c v) (some_block_edge c v),
      mul-le-mul (some_block_edge c v) (some_block_edge c v),
    )
