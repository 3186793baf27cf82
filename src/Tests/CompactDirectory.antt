-- ===== src/Tests/CompactDirectory.antt =====
-- Runs and instances of the hashed directory: two owners, two buckets, two slots for each owner.
use fed_kg_rag_secure_impl.Prelude.{
  ℕ, ◌≡◌, refl, List, [], ◌∷◌, arith, map, All, String, some, suc, ◌<◌, ◌≤◌, bit_and, ◌-◌,
}
use fed_kg_rag_secure_impl.Prelude.Bits.{◌<<<◌, ◌>>>◌, bit_length, bit_length_fuel}
use fed_kg_rag_secure_impl.Python.{ok}
use fed_kg_rag_secure_impl.Python.Sequence.{sort_by}
use fed_kg_rag_secure_impl.CompactDirectory.{
  TableShape, bucket_of, hash_bucket, pack_slot, build_owner_table, fill_table, place_slot,
  lookup_cleartext,
}
use fed_kg_rag_secure_impl.CompactDirectory.Plan.{
  CompactDirectoryPlan, plan_capacity, best_plan, measure_load, owner_load, count_buckets,
  lookup_products, plan_of,
}
use fed_kg_rag_secure_impl.CompactDirectory.Buckets.{bucket_of-lt}
use fed_kg_rag_secure_impl.CompactDirectory.Slots.{pack_slot-unpacks}
use fed_kg_rag_secure_impl.CompactDirectory.Build.{DistinctKeys, descriptor_of}
use fed_kg_rag_secure_impl.CompactDirectory.Capacity.{shape_of}
use fed_kg_rag_secure_impl.CompactDirectory.Room.{IsStorable}
use fed_kg_rag_secure_impl.CompactDirectory.Planned.{dicts_of, lookup_cleartext-plan_capacity}
use fed_kg_rag_secure_impl.CompactDirectory.Cheapest.{plan_capacity_cheapest}
use fed_kg_rag_secure_impl.CompactDirectory.Lookup.{owner_tables, lookup_cleartext-owner_tables}

abbrev shape : TableShape
shape = record { buckets = 2; slots = 2; owner_count = 2; descriptor_bits = 4 }

abbrev first_owner : List (ℕ × ℕ)
first_owner = (8, 1) ∷ (3, 5) ∷ []

abbrev second_owner : List (ℕ × ℕ)
second_owner = (3, 7) ∷ []

abbrev tables : List (List ℕ)
tables = (0 ∷ 0 ∷ 0 ∷ 0 ∷ 53 ∷ 129 ∷ 0 ∷ 0 ∷ []) ∷ (0 ∷ 0 ∷ 0 ∷ 0 ∷ 0 ∷ 0 ∷ 55 ∷ 0 ∷ []) ∷ []

bucket_run : bucket_of 3 2 ≡ ok 1
unfolding bucket_of hash_bucket bit_length bit_length_fuel
bucket_run = refl

tables_run : owner_tables shape 0 (first_owner ∷ second_owner ∷ []) ≡ ok tables
unfolding owner_tables build_owner_table fill_table place_slot pack_slot bucket_of hash_bucket
    bit_length sort_by
tables_run = refl

bucket_of-lt_example : 1 < 2
bucket_of-lt_example = bucket_of-lt 3 2 bucket_run

pack_run : pack_slot 3 5 4 ≡ ok 53
unfolding pack_slot
pack_run = refl

pack_slot-unpacks_example : (53 >>> 4 ≡ 3) × (bit_and 53 ((1 <<< 4) - 1) ≡ 5)
pack_slot-unpacks_example = pack_slot-unpacks 3 5 4 pack_run

distinct : DistinctKeys first_owner × (DistinctKeys second_owner × Unit {0})
unfolding DistinctKeys
distinct = (((λ e. omega arith, tt), (tt, tt)), ((tt, tt), tt))

lookup_cleartext-owner_tables_example :
    lookup_cleartext shape tables 3 ≡ ok (map (descriptor_of 3) (first_owner ∷ second_owner ∷ []))
lookup_cleartext-owner_tables_example =
    lookup_cleartext-owner_tables shape (first_owner ∷ second_owner ∷ []) 3 refl distinct tables_run
      bucket_run

abbrev owner_tags : List (String × List ℕ)
owner_tags = ("a", 8 ∷ 3 ∷ []) ∷ ("b", 3 ∷ []) ∷ []

abbrev plan : CompactDirectoryPlan
plan = record { buckets = 1; slots = 2; owner_count = 2; max_load = 2; total_keys = 3 }

plan_run : plan_capacity owner_tags (some (1 ∷ 2 ∷ 4 ∷ [])) 1 ≡ ok plan
unfolding plan_capacity best_plan measure_load owner_load count_buckets bucket_of hash_bucket
    bit_length bit_length_fuel lookup_products
plan_run = refl

load_run : measure_load owner_tags 2 ≡ ok (suc 1, 2 ∷ 1 ∷ [])
unfolding measure_load owner_load count_buckets bucket_of hash_bucket bit_length bit_length_fuel
load_run = refl

abbrev named : List (String × List (ℕ × ℕ))
named = ("a", first_owner) ∷ ("b", second_owner) ∷ []

storable : All (All (IsStorable 4)) (dicts_of named)
unfolding IsStorable
storable = (
  ((λ e. omega arith, omega arith), ((λ e. omega arith, omega arith), tt)),
  (((λ e. omega arith, omega arith), tt), tt),
)

single_run : bucket_of 3 1 ≡ ok 0
unfolding bucket_of
single_run = refl

lookup_cleartext-plan_capacity_example :
    (built : List (List ℕ)) × (owner_tables (shape_of plan 4) 0 (dicts_of named) ≡ ok built)
    × (lookup_cleartext (shape_of plan 4) built 3 ≡ ok (map (descriptor_of 3) (dicts_of named)))
lookup_cleartext-plan_capacity_example =
    lookup_cleartext-plan_capacity named (some (1 ∷ 2 ∷ 4 ∷ [])) 1 4 3 plan_run distinct storable
      single_run

plan_capacity_cheapest_example : lookup_products plan 1 ≤ lookup_products (plan_of owner_tags 2 2) 1
plan_capacity_cheapest_example =
    plan_capacity_cheapest 1 owner_tags (1 ∷ 2 ∷ 4 ∷ []) 1 plan_run refl load_run
