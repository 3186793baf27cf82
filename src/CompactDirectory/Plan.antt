-- ===== src/CompactDirectory/Plan.antt =====
-- doram_t2_3pc/compact_directory.py: the measured load of the owners, the modelled cost of a lookup, and
-- the choice of a bucket count.
use fed_kg_rag_secure_impl.Prelude.{
  ℕ, zero, suc, ◌+◌, ◌*◌, ◌^◌, Bool, Option, none, some, List, [], ◌∷◌, map, ltb, ◌==◌, String,
  length, if◌then◌else◌,
}
use fed_kg_rag_secure_impl.Python.{Result, ok, err, value_error, ◌>>=◌, map_result, insert, nat_key}
use fed_kg_rag_secure_impl.Python.Sequence.{max_default}
use fed_kg_rag_secure_impl.Config.{range_from}
use fed_kg_rag_secure_impl.CompactDirectory.{bucket_of, filled_of}

pub record CompactDirectoryPlan : Type 0 where
  pub buckets : ℕ
  pub slots : ℕ
  pub owner_count : ℕ
  pub max_load : ℕ
  pub total_keys : ℕ

unfoldable pub total_slots : CompactDirectoryPlan → ℕ
total_slots p = p.buckets * p.owner_count * p.slots

unfoldable pub count_buckets : ℕ → List ℕ → List (ℕ × ℕ) → Result (List (ℕ × ℕ))
count_buckets buckets [] counts = ok counts
count_buckets buckets (tag ∷ tags) counts = do
  bucket ← bucket_of tag buckets
  count_buckets buckets tags (insert bucket (filled_of bucket counts + 1) counts)

abbrev pub counts_of : List (ℕ × ℕ) → List ℕ
counts_of counts = map (λ (e : ℕ × ℕ). e.1) counts

-- The largest load of one owner.
unfoldable pub owner_load : ℕ → List ℕ → Result ℕ
owner_load buckets tags = do
  counts ← count_buckets buckets tags []
  ok (max_default 0 (counts_of counts))

unfoldable pub measure_load : List (String × List ℕ) → ℕ → Result (ℕ × List ℕ)
measure_load owner_tags buckets = do
  per_owner ← map_result (λ (e : String × List ℕ). owner_load buckets e.1) owner_tags
  ok (max_default 0 (0 ∷ per_owner), per_owner)

abbrev pub equality_products : ℕ
equality_products = 50

unfoldable pub lookup_products : CompactDirectoryPlan → ℕ → ℕ
lookup_products p frontier_addresses =
    let addresses = 1 + frontier_addresses in
    let fetch = 2 * p.buckets * p.owner_count * p.slots in
    let verify = p.owner_count * p.slots * equality_products in addresses * (fetch + verify)

unfoldable pub dense_products : ℕ → ℕ → ℕ → Bool → ℕ
dense_products entity_count relation_count frontier_addresses folded =
    let rows = entity_count * relation_count in
    if folded
    then rows + rows + frontier_addresses * entity_count
    else (1 + frontier_addresses) * rows

abbrev total_of : List (String × List ℕ) → ℕ
total_of [] = 0
total_of ((owner, tags) ∷ owners) = length tags + total_of owners

-- `len(materialised) or 1`
abbrev pub count_or_one : ℕ → ℕ
count_or_one zero = 1
count_or_one (suc n) = suc n

abbrev pub plan_of : List (String × List ℕ) → ℕ → ℕ → CompactDirectoryPlan
plan_of owners buckets max_load = record {
  buckets = buckets;
  slots = max_load;
  owner_count = count_or_one (length owners);
  max_load = max_load;
  total_keys = total_of owners;
}

-- A cheaper plan takes the place of the best one.
abbrev pub better :
    ℕ → CompactDirectoryPlan → Option CompactDirectoryPlan → Option CompactDirectoryPlan
better frontier_addresses plan none = some plan
better frontier_addresses plan (some best) =
    if ltb (lookup_products plan frontier_addresses) (lookup_products best frontier_addresses)
    then some plan
    else some best

unfoldable pub best_plan :
    List (String × List ℕ)
    → ℕ
    → List ℕ
    → Option CompactDirectoryPlan
    → Result (Option CompactDirectoryPlan)
best_plan owners frontier_addresses [] best = ok best
best_plan owners frontier_addresses (buckets ∷ candidates) best = do
  (max_load, _) ← measure_load owners buckets
  best_plan owners frontier_addresses candidates (
      if max_load == 0
      then best
      else better frontier_addresses (plan_of owners buckets max_load) best)

abbrev pub default_candidates : List ℕ
default_candidates = map (λ power. 2 ^ power) (range_from 0 15)

unfoldable pub plan_capacity :
    List (String × List ℕ) → Option (List ℕ) → ℕ → Result CompactDirectoryPlan
plan_capacity owner_tags candidates frontier_addresses = do
  best ←
      best_plan owner_tags frontier_addresses
        (elim candidates [ none ↦ default_candidates | some given ↦ given ]) none
  elim best [ none ↦ err value_error | some plan ↦ ok plan ]
