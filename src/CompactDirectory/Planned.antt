-- ===== src/CompactDirectory/Planned.antt =====
-- compact_directory.py: planning, building and looking up, in this order.
use mathlib.Core.Option.{some-injective}
use fed_kg_rag_secure_impl.Prelude.{
  ℕ, zero, suc, ◌+◌, ◌≡◌, ap, refl, sym, subst, ◌∙◌, arith, String, Option, some, List, [], ◌∷◌,
  map, length, length-map, get_elem?, All,
}
use fed_kg_rag_secure_impl.Python.{ok}
use fed_kg_rag_secure_impl.Python.Sequence.{keys_of}
use fed_kg_rag_secure_impl.CompactDirectory.{
  TableShape, bucket_of, build_owner_table, lookup_cleartext,
}
use fed_kg_rag_secure_impl.CompactDirectory.Plan.{CompactDirectoryPlan, plan_capacity}
use fed_kg_rag_secure_impl.CompactDirectory.Build.{DistinctKeys, descriptor_of}
use fed_kg_rag_secure_impl.CompactDirectory.Lookup.{owner_tables, lookup_cleartext-owner_tables}
use fed_kg_rag_secure_impl.CompactDirectory.Room.{IsStorable}
use fed_kg_rag_secure_impl.CompactDirectory.Capacity.{
  shape_of, IsMeasured, plan_capacity-IsMeasured, build_owner_table-plan_capacity,
}

-- The tags that the plan counts, and the dictionaries that the owners store.
abbrev pub tags_of : List (String × List (ℕ × ℕ)) → List (String × List ℕ)
tags_of owners = map (λ (e : String × List (ℕ × ℕ)). (e.0, keys_of e.1)) owners

abbrev pub dicts_of : List (String × List (ℕ × ℕ)) → List (List (ℕ × ℕ))
dicts_of owners = map (λ (e : String × List (ℕ × ℕ)). e.1) owners

owner_tables_ok :
    (s : TableShape) (owner : ℕ) (owners : List (List (ℕ × ℕ)))
    → ((k : ℕ) (items : List (ℕ × ℕ))
        → get_elem? owners k ≡ some items
        → (table : List ℕ) × (build_owner_table s (owner + k) items ≡ ok table))
    → (tables : List (List ℕ)) × (owner_tables s owner owners ≡ ok tables)
unfolding owner_tables
owner_tables_ok s owner [] build = ([], refl)
owner_tables_ok s owner (items ∷ owners) build =
    let (table, made) = build 0 items refl in
    let (tables, rest) = owner_tables_ok s (owner + 1) owners (λ k others at.
      let (t, run) = build (suc k) others at in
      (t, ap (λ (o : ℕ). build_owner_table s o others) (omega arith) ∙ run)) in
    let here : build_owner_table s owner items ≡ ok table =
      ap (λ (o : ℕ). build_owner_table s o items) (omega arith) ∙ made in
    (table ∷ tables, rw (here, rest) refl)

owner_item :
    (owners : List (String × List (ℕ × ℕ))) (bits k : ℕ) {items : List (ℕ × ℕ)}
    → get_elem? (dicts_of owners) k ≡ some items
    → All (All (IsStorable bits)) (dicts_of owners)
    → ((name : String) × (get_elem? (tags_of owners) k ≡ some (name, keys_of items)))
      × All (IsStorable bits) items
owner_item [] bits k at all = cc
owner_item ((name, dict) ∷ owners) bits zero at all =
    let same = some-injective dict _ at in
    ((name, ap (λ d. some (name, keys_of d)) same), subst (λ d. All (IsStorable bits) d) same all.0)
owner_item (owner ∷ owners) bits (suc k) at all = owner_item owners bits k at all.1

-- When `plan_capacity` returns a plan for the tags of the owners, the keys of each owner are
-- distinct and not zero, every descriptor fits its bits, and the bucket of a tag is defined, then
-- with the sizes of the plan `build_owner_table` returns a table for every owner, no bucket
-- overflowing, and `lookup_cleartext` of these tables returns for each owner the descriptor of the
-- tag in its dictionary, or zero.
pub lookup_cleartext-plan_capacity :
    (owners : List (String × List (ℕ × ℕ))) (candidates : Option (List ℕ)) (frontier bits tag : ℕ)
    {p : CompactDirectoryPlan} {bucket : ℕ}
    → plan_capacity (tags_of owners) candidates frontier ≡ ok p
    → All DistinctKeys (dicts_of owners)
    → All (All (IsStorable bits)) (dicts_of owners)
    → bucket_of tag p.buckets ≡ ok bucket
    → (tables : List (List ℕ)) × (owner_tables (shape_of p bits) 0 (dicts_of owners) ≡ ok tables)
      × (lookup_cleartext (shape_of p bits) tables tag
          ≡ ok (map (descriptor_of tag) (dicts_of owners)))
unfolding IsMeasured
lookup_cleartext-plan_capacity owners candidates frontier bits tag {p} planned distinct storable
      hash =
    let (per, measured, count) =
      plan_capacity-IsMeasured (tags_of owners) candidates frontier planned in
    let (tables, built) = owner_tables_ok (shape_of p bits) 0 (dicts_of owners) (λ k items at.
      let (named, fits) = owner_item owners bits k at storable in
      let (table, run) =
        build_owner_table-plan_capacity (tags_of owners) candidates frontier k bits items planned
          named.1 fits in
      (table, ap (λ (o : ℕ). build_owner_table (shape_of p bits) o items) (omega arith) ∙ run)) in
    let counted : length (dicts_of owners) ≡ p.owner_count =
      length-map owners (λ (e : String × List (ℕ × ℕ)). e.1)
      ∙ sym (count ∙ length-map owners (λ (e : String × List (ℕ × ℕ)). (e.0, keys_of e.1))) in
    (
      tables,
      built,
      lookup_cleartext-owner_tables (shape_of p bits) (dicts_of owners) tag counted distinct built
          hash,
    )
