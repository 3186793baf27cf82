-- ===== src/Pages/Read/Complete.antt =====
-- A key of a built layout is read as its edges, sorted, and empty slots up to the public width.
use fed_kg_rag_secure_impl.Prelude.{
  ℕ, ◌-◌, ◌<◌, ◌≤◌, ◌≡◌, sym, ap, ◌∙◌, subst, String, true, none, some, List, [], ◌∷◌, ◌++◌, arith,
  length, replicate, get_elem?, get_elem?-some, get_elem?-replicate, get_elem?-append_left,
  length-replicate, All, inl, inr, Option-cases,
}
use fed_kg_rag_secure_impl.Python.{ok, ok-injective, map_result, lookup, pair_key}
use fed_kg_rag_secure_impl.Python.Sequence.{sort_by}
use fed_kg_rag_secure_impl.Config.{entity_count}
use fed_kg_rag_secure_impl.Config.Validate.{IsValid}
use fed_kg_rag_secure_impl.Packed.Edges.{Row, Edge, validated_edge}
use fed_kg_rag_secure_impl.Packed.Slots.{validated-HasSlots}
use fed_kg_rag_secure_impl.Pages.{validate, effective_frontier_per_owner}
use fed_kg_rag_secure_impl.Pages.Directory.{
  RelationPageConfig, relation_count, dense_directory_rows, directory_rows, dense_directory_index,
}
use fed_kg_rag_secure_impl.Pages.Directory.Laws.{dense_directory_index-lt}
use fed_kg_rag_secure_impl.Pages.Build.{
  Entry, Groups, Placed, OwnerPageLayout, entry_le, key_le, dummy_page, finished, grouped_edges,
  group_rows, build_owner_page_layout, place_keys,
}
use fed_kg_rag_secure_impl.Pages.Build.Shape.{
  place_keys-HasShape, build_owner_page_layout-BuiltLayout,
}
use fed_kg_rag_secure_impl.Pages.Evaluate.{empty_slot, read_owner}
use fed_kg_rag_secure_impl.Pages.Read.Slots.{HasTarget}
use fed_kg_rag_secure_impl.Pages.Read.Stored.{
  IsStored, Unique, place_keys-absent, place_keys-IsStored,
}
use fed_kg_rag_secure_impl.Pages.Read.Grouping.{
  entries_of, group_of, group_rows-entries_of, group_rows-Unique, sort_by-groups,
  entries_of-HasTarget,
}
use fed_kg_rag_secure_impl.Pages.Read.Single.{
  validate-bounds, dense_directory_index-ok, find_descriptor-dense, unpack_descriptor-zero,
  read_window-zero, HasRead, read_found, read_stored,
}

-- A key whose descriptor is zero has no edges.
read_absent :
    (c : RelationPageConfig) (owner : String) (source relation : ℕ) (p : Placed) {i : ℕ}
    → c.type_blocks ≡ none
    → 1 ≤ source
    → 1 ≤ length p.pool
    → dense_directory_index c source relation ≡ ok i
    → get_elem? p.directory i ≡ some 0
    → HasRead c (finished c owner p) source relation []
unfolding sort_by
read_absent c owner source relation p dense some_source started indexed written =
    let layout = finished c owner p in
    let (dummy, at_zero) = get_elem?-some p.pool 0 started in
    let (slots, read, same) =
      read_window-zero c layout (get_elem?-append_left p.pool _ 0 started ∙ at_zero) in
    read_found c layout source relation []
      (find_descriptor-dense c layout source relation dense some_source indexed written)
      (unpack_descriptor-zero c) read same (omega arith)

grouped_edges-rows :
    (c : RelationPageConfig) (owner : String) (edges : List Row) {grouped : Groups}
    → grouped_edges c owner edges ≡ ok grouped
    → group_rows c.base edges [] ≡ ok grouped
unfolding grouped_edges
grouped_edges-rows c owner edges h = ground arith

dense_rows :
    (c : RelationPageConfig) {rows : ℕ}
    → c.type_blocks ≡ none
    → directory_rows c ≡ ok rows
    → dense_directory_rows c ≡ rows
unfolding directory_rows dense_directory_rows relation_count
dense_rows c dense h = ok-injective (rw dense at h)

-- What reading a key returns: the sorted entries of its edges, which fit the declared frontier, and
-- empty slots behind them up to that width.
pub record ReadsKey (c : RelationPageConfig) (edges : List Row) (layout : OwnerPageLayout)
    (source relation : ℕ) : Type 0 where
  pub es : List Edge
  pub validated : map_result (validated_edge c.base) edges ≡ ok es
  pub read :
      read_owner c layout source relation true
      ≡ ok (
          sort_by entry_le (entries_of (source, relation) es)
          ++ replicate
              (effective_frontier_per_owner c.pages - length (entries_of (source, relation) es))
              empty_slot)

-- The two cases, by the group of the key.
read_group :
    (c : RelationPageConfig) (owner : String) (source relation : ℕ) (es : List Edge) (g : Groups)
    (rows : ℕ) (p : Placed) {i : ℕ}
    → c.type_blocks ≡ none
    → 1 ≤ source
    → 1 ≤ length p.pool
    → All HasTarget (entries_of (source, relation) es)
    → Unique g
    → group_of (lookup (source, relation) g) ≡ entries_of (source, relation) es
    → place_keys c g
        (record { directory = replicate rows 0; residual = []; pool = dummy_page c ∷ [] })
      ≡ ok p
    → dense_directory_index c source relation ≡ ok i
    → i < rows
    → HasRead c (finished c owner p) source relation (entries_of (source, relation) es)
read_group c owner source relation es g rows p {i} dense some_source started targets unique group
      placed indexed inside =
    elim (Option-cases (lookup (source, relation) g)) [
      | inl missing ↦
          let none_left : [] ≡ entries_of (source, relation) es =
            ap group_of (sym missing) ∙ group in
          subst (HasRead c (finished c owner p) source relation) none_left (
            read_absent c owner source relation p dense some_source started indexed (
              place_keys-absent c (source, relation) g _ dense missing placed indexed
              ∙ get_elem?-replicate rows i 0 inside))
      | inr (records, found) ↦
          let same : records ≡ entries_of (source, relation) es = ap group_of (sym found) ∙ group in
          read_stored c owner source relation (entries_of (source, relation) es) p dense some_source
            started targets
            (subst (λ (l : List Entry). IsStored c (source, relation) l p) same
              (place_keys-IsStored c (source, relation) records g _ dense unique found placed))
    ]

-- For a valid base configuration, accepted page bounds and the dense directory: once an owner's
-- layout is built, reading any key (source slot at least 1 and below the entity count, relation
-- identifier from 1 to the relation count) succeeds and returns the entries of exactly the
-- validated edges of that key, sorted, followed by empty slots up to the declared frontier.
pub read_owner-ReadsKey :
    (c : RelationPageConfig) (owner : String) (edges : List Row) (source relation : ℕ)
    {layout : OwnerPageLayout}
    → IsValid c.base
    → validate c.pages ≡ ok tt
    → c.type_blocks ≡ none
    → 1 ≤ source
    → source < entity_count c.base
    → 1 ≤ relation
    → relation ≤ relation_count c
    → build_owner_page_layout c owner edges ≡ ok layout
    → ReadsKey c edges layout source relation
unfolding HasRead
read_owner-ReadsKey c owner edges source relation {layout} valid bounds dense some_source inside
      some_id id_le h =
    let b = build_owner_page_layout-BuiltLayout c owner edges h in
    let (es, validated, groups) =
      group_rows-entries_of c.base edges [] (grouped_edges-rows c owner edges b.groups) in
    let (unique, same) =
      sort_by-groups b.grouped
        (group_rows-Unique c.base edges [] tt (grouped_edges-rows c owner edges b.groups)) in
    let (i, indexed) = dense_directory_index-ok c source relation inside some_id id_le in
    let shape =
      place_keys-HasShape c b.rows (sort_by key_le b.grouped) _
        (record {
          height = length-replicate {A = ℕ} b.rows 0;
          pages = (length-replicate {A = ℕ} c.pages.page_size 0, tt);
          budget = omega (arith, (validate-bounds c.pages bounds).2);
          started = omega arith;
        })
        b.loop in
    let read =
      read_group c owner source relation es (sort_by key_le b.grouped) b.rows b.placed dense
        some_source shape.started
        (entries_of-HasTarget c.base (source, relation) es
          (validated-HasSlots c.base edges es valid validated))
        unique (ap group_of (same (source, relation)) ∙ groups (source, relation)) b.loop indexed
        (omega (
          arith,
          dense_directory_index-lt c source relation indexed,
          dense_rows c dense b.height,
        )) in
    subst (λ (l : OwnerPageLayout). ReadsKey c edges l source relation) (sym b.result)
      (record { es = es; validated = validated; read = read })
