-- ===== src/CompactDirectory/Capacity.antt =====
-- compact_directory.py, `plan_capacity` and `build_owner_table`: the tables of a plan.
use fed_kg_rag_secure_impl.Prelude.{
  false, ap, refl, ◌∙◌, ℕ, ◌+◌, ◌*◌, ◌≤◌, ◌≡◌, subst, arith, String, Bool-cases, inl, inr, Option,
  none, some, List, [], ◌∷◌, ◌==◌, length, length-replicate, get_elem?, get_elem?-lt, ltb,
  replicate, All,
}
use fed_kg_rag_secure_impl.Python.{Result, ok, err, value_error, >>=-eq-ok, ok-injective, nat_key}
use fed_kg_rag_secure_impl.Python.Sequence.{keys_of, sort_by, All-sort_by}
use fed_kg_rag_secure_impl.CompactDirectory.{
  TableShape, width, bucket_of, build_owner_table, item_le,
}
use fed_kg_rag_secure_impl.CompactDirectory.Plan.{
  CompactDirectoryPlan, measure_load, count_or_one, plan_of, better, best_plan, plan_capacity,
  lookup_products, default_candidates,
}
use fed_kg_rag_secure_impl.CompactDirectory.Load.{tally, AllHash, measure_load-tally, tally-sort_by}
use fed_kg_rag_secure_impl.CompactDirectory.Room.{IsStorable, HasRoom, fill_table_ok}

-- The sizes of the tables of a plan.
abbrev pub shape_of : CompactDirectoryPlan → ℕ → TableShape
shape_of p bits = record {
  buckets = p.buckets;
  slots = p.slots;
  owner_count = p.owner_count;
  descriptor_bits = bits;
}

-- A plan whose slots are the measured load of its buckets.
unfoldable pub IsMeasured : List (String × List ℕ) → CompactDirectoryPlan → Type 0
IsMeasured owner_tags p =
    (per : List ℕ) × (measure_load owner_tags p.buckets ≡ ok (p.slots, per))
    × (p.owner_count ≡ length owner_tags)

OrMeasured : List (String × List ℕ) → Option CompactDirectoryPlan → Type 0
OrMeasured owner_tags none = Unit
OrMeasured owner_tags (some p) = IsMeasured owner_tags p

-- A load that is not zero is that of some owner.
loaded-count :
    (owner_tags : List (String × List ℕ)) (buckets : ℕ) {measured : ℕ × List ℕ}
    → measure_load owner_tags buckets ≡ ok measured
    → (measured.0 == 0) ≡ false
    → count_or_one (length owner_tags) ≡ length owner_tags
unfolding measure_load
loaded-count [] buckets h loaded =
    let zero_load = ap (λ (m : ℕ × List ℕ). m.0 == 0) (ok-injective h) ∙ loaded in cc
loaded-count (owner ∷ owner_tags) buckets h loaded = refl

better-OrMeasured :
    (owner_tags : List (String × List ℕ)) (frontier : ℕ) (p : CompactDirectoryPlan)
    (best : Option CompactDirectoryPlan)
    → IsMeasured owner_tags p
    → OrMeasured owner_tags best
    → OrMeasured owner_tags (better frontier p best)
unfolding OrMeasured
better-OrMeasured owner_tags frontier p none own m = own
better-OrMeasured owner_tags frontier p (some b) own m =
    elim (Bool-cases (ltb (lookup_products p frontier) (lookup_products b frontier))) [
      | inl cheaper ↦ rw cheaper own
      | inr dearer ↦ rw dearer m
    ]

best_plan-OrMeasured :
    (owner_tags : List (String × List ℕ)) (frontier : ℕ) (candidates : List ℕ)
    (best : Option CompactDirectoryPlan) {out : Option CompactDirectoryPlan}
    → best_plan owner_tags frontier candidates best ≡ ok out
    → OrMeasured owner_tags best
    → OrMeasured owner_tags out
unfolding best_plan OrMeasured IsMeasured
best_plan-OrMeasured owner_tags frontier [] best h m =
    subst (OrMeasured owner_tags) (ok-injective h) m
best_plan-OrMeasured owner_tags frontier (buckets ∷ candidates) best h m =
    let (measured, run, rest) = >>=-eq-ok (measure_load owner_tags buckets) _ h in
    best_plan-OrMeasured owner_tags frontier candidates _ rest
      (elim (Bool-cases (measured.0 == 0)) [
        | inl empty ↦ rw empty m
        | inr loaded ↦
            let own : IsMeasured owner_tags (plan_of owner_tags buckets measured.0) =
              (measured.1, run, loaded-count owner_tags buckets run loaded) in
            rw loaded (
              better-OrMeasured owner_tags frontier (plan_of owner_tags buckets measured.0) best own
                m)
      ])

pub plan_capacity-IsMeasured :
    (owner_tags : List (String × List ℕ)) (candidates : Option (List ℕ)) (frontier : ℕ)
    {p : CompactDirectoryPlan}
    → plan_capacity owner_tags candidates frontier ≡ ok p
    → IsMeasured owner_tags p
unfolding plan_capacity OrMeasured
plan_capacity-IsMeasured owner_tags candidates frontier {p} h =
    let given : List ℕ = elim candidates [ none ↦ default_candidates | some given ↦ given ] in
    let (best, run, chosen) = >>=-eq-ok (best_plan owner_tags frontier given none) _ h in
    found best chosen (best_plan-OrMeasured owner_tags frontier given none run tt)
  where
    found :
        (o : Option CompactDirectoryPlan)
        → elim o as (λ x. Result CompactDirectoryPlan) [
          | none ↦ err value_error
          | some plan ↦ ok plan
        ]
          ≡ ok p
        → OrMeasured owner_tags o
        → IsMeasured owner_tags p
    found none e m = cc
    found (some plan) e m = subst (IsMeasured owner_tags) (ok-injective e) m

AllHash-sort_by :
    (buckets : ℕ) (items : List (ℕ × ℕ))
    → AllHash buckets (keys_of items)
    → AllHash buckets (keys_of (sort_by item_le items))
unfolding AllHash
AllHash-sort_by buckets items h =
    keys_hash (sort_by item_le items) (All-sort_by item_le Hashes items (items_hash items h))
  where
    Hashes : ℕ × ℕ → Type 0
    Hashes e = (bucket : ℕ) × (bucket_of e.0 buckets ≡ ok bucket)

    items_hash : (l : List (ℕ × ℕ)) → AllHash buckets (keys_of l) → All Hashes l
    items_hash [] k = tt
    items_hash (e ∷ l) k = (k.0, items_hash l k.1)

    keys_hash : (l : List (ℕ × ℕ)) → All Hashes l → AllHash buckets (keys_of l)
    keys_hash [] k = tt
    keys_hash (e ∷ l) k = (k.0, keys_hash l k.1)

-- When `plan_capacity` returns a plan for the tags of the owners and the keys of an owner are its
-- tags, none of them zero and every descriptor fitting its bits, `build_owner_table` with the
-- sizes of the plan returns a table for this owner: no bucket overflows.
pub build_owner_table-plan_capacity :
    (owner_tags : List (String × List ℕ)) (candidates : Option (List ℕ)) (frontier owner bits : ℕ)
    (items : List (ℕ × ℕ)) {name : String} {p : CompactDirectoryPlan}
    → plan_capacity owner_tags candidates frontier ≡ ok p
    → get_elem? owner_tags owner ≡ some (name, keys_of items)
    → All (IsStorable bits) items
    → (table : List ℕ) × (build_owner_table (shape_of p bits) owner items ≡ ok table)
unfolding build_owner_table IsMeasured HasRoom
build_owner_table-plan_capacity owner_tags candidates frontier owner bits items {name} {p} h at
      storable =
    let (per, measured, count) = plan_capacity-IsMeasured owner_tags candidates frontier h in
    let (bound, hash) = measure_load-tally owner_tags p.buckets owner measured at in
    let s = shape_of p bits in
    let room : (b : ℕ) → 0 + tally p.buckets b (keys_of (sort_by item_le items)) ≤ p.slots =
      λ b. omega (arith, bound b, tally-sort_by p.buckets b item_le items) in
    fill_table_ok s owner (sort_by item_le items) (replicate (p.buckets * width s) 0) []
      (omega (arith, count, get_elem?-lt owner_tags owner at))
      (length-replicate (p.buckets * width s) 0)
      (All-sort_by item_le (IsStorable bits) items storable) (AllHash-sort_by p.buckets items hash)
      room
