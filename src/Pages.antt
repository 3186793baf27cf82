-- ===== src/Pages.antt =====
-- doram_t2_3pc/relation_pages.py: the bounds of the relation-paged layout and their checks. Fields
-- that Python holds as `int` are natural numbers, of which the checks refuse zero where they refuse
-- a negative number.
pub mod Directory
pub mod Build
pub mod Evaluate
pub mod Cost
pub mod Ranking
pub mod Read
use fed_kg_rag_secure_impl.Prelude.{
  ℕ, ◌+◌, ◌-◌, ◌*◌, Bool, true, false, Option, none, some, not, ltb, leb, ◌==◌, ◌&&◌, ◌||◌, max,
  bit_and, if◌then◌else◌,
}
use fed_kg_rag_secure_impl.Prelude.Bits.{bit_length}
use fed_kg_rag_secure_impl.Python.{Result, ok, err, value_error, ◌>>=◌, ◌>>◌, raise_if}
use fed_kg_rag_secure_impl.Config.{or_default}

pub record RelationPageParameters : Type 0 where
  pub page_size : ℕ
  pub pages_per_key : ℕ
  pub page_budget : ℕ
  pub frontier_per_owner : Option ℕ
  pub global_frontier : Option ℕ
  pub directory_buckets : Option ℕ
  pub bucket_slots : Option ℕ
  pub partition_residual_by_relation : Bool

unfoldable pub slots_per_key : RelationPageParameters → ℕ
slots_per_key p = p.pages_per_key * p.page_size

unfoldable pub effective_frontier_per_owner : RelationPageParameters → ℕ
effective_frontier_per_owner p = or_default p.frontier_per_owner (slots_per_key p)

unfoldable pub uses_frontier_compaction : RelationPageParameters → Bool
uses_frontier_compaction p = ltb (effective_frontier_per_owner p) (slots_per_key p)

unfoldable pub frontier_slots : RelationPageParameters → ℕ → ℕ
frontier_slots p owner_count = elim p.global_frontier [
  | none ↦ owner_count * effective_frontier_per_owner p
  | some width ↦ width
]

-- `value is not None`
abbrev pub is_set {ℓ} : {A : Type ℓ} → Option A → Bool
is_set none = false
is_set (some a) = true

unfoldable pub uses_compact_directory : RelationPageParameters → Bool
uses_compact_directory p = is_set p.directory_buckets

unfoldable pub uses_global_frontier : RelationPageParameters → Bool
uses_global_frontier p = is_set p.global_frontier

unfoldable pub pool_rows : RelationPageParameters → ℕ
pool_rows p = p.page_budget + p.pages_per_key - 1

unfoldable pub page_base_bits : RelationPageParameters → ℕ
page_base_bits p = max 1 (bit_length (p.page_budget - 1))

unfoldable pub page_count_bits : RelationPageParameters → ℕ
page_count_bits p = max 1 (bit_length p.pages_per_key)

unfoldable pub descriptor_bits : RelationPageParameters → ℕ
descriptor_bits p = page_base_bits p + page_count_bits p

-- A bound that may be absent, and must be at least `lo` where it is set.
abbrev below : ℕ → Option ℕ → Bool
below lo none = false
below lo (some n) = ltb n lo

abbrev above : ℕ → Option ℕ → Bool
above hi none = false
above hi (some n) = ltb hi n

abbrev not_power_of_two : Option ℕ → Bool
not_power_of_two none = false
not_power_of_two (some n) = not (bit_and n (n - 1) == 0)

abbrev differ : Bool → Bool → Bool
differ a b = if a then not b else b

-- Every check of `RelationPageParameters.validate`, in its order; all of them raise `ValueError`.
unfoldable pub validate : RelationPageParameters → Result (Unit {0})
unfolding slots_per_key uses_compact_directory
validate p = do
  raise_if (ltb p.page_size 1) value_error
  raise_if (ltb p.pages_per_key 1) value_error
  raise_if (ltb p.page_budget 1) value_error
  raise_if (ltb p.page_budget 2) value_error
  raise_if (below 1 p.frontier_per_owner || above (slots_per_key p) p.frontier_per_owner)
      value_error
  raise_if (below 1 p.directory_buckets) value_error
  raise_if (below 1 p.bucket_slots) value_error
  raise_if (differ (is_set p.directory_buckets) (is_set p.bucket_slots)) value_error
  raise_if (not_power_of_two p.directory_buckets) value_error
  raise_if (below 1 p.global_frontier) value_error
  raise_if (p.partition_residual_by_relation && not (uses_compact_directory p)) value_error
