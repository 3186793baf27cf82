-- ===== src/Pages/Build.antt =====
-- `build_owner_page_layout`: an owner's edges grouped by key, its page pool and its directory;
-- `owner_occupancy_vector` and `check_global_frontier`.
pub mod Shape
use fed_kg_rag_secure_impl.Prelude.{
  ℕ, zero, suc, ◌+◌, ◌-◌, ◌*◌, ◌/◌, String, Bool, true, false, Option, none, some, List, [], ◌∷◌,
  ◌++◌, map, not, ltb, ◌==◌, ◌&&◌, ◌||◌, length, take, drop, replicate, if◌then◌else◌,
}
use fed_kg_rag_secure_impl.Python.{
  Result, ok, err, value_error, type_error, zero_division_error, ◌>>=◌, ◌>>◌, raise_if, map_result,
  contains, lookup, insert, string_key, pair_key, nat_key,
}
use fed_kg_rag_secure_impl.Python.Sequence.{set_item, sort_by, any_of}
use fed_kg_rag_secure_impl.Python.Counter.{Counter, increment, largest, overflowing}
use fed_kg_rag_secure_impl.Sharing.{element}
use fed_kg_rag_secure_impl.Config.{PublicConfig}
use fed_kg_rag_secure_impl.Packed.{pack_edge}
use fed_kg_rag_secure_impl.Packed.Edges.{Row, Edge, validated_edge}
use fed_kg_rag_secure_impl.Pages.{RelationPageParameters, effective_frontier_per_owner, pool_rows}
use fed_kg_rag_secure_impl.Pages.Directory.{
  RelationPageConfig, directory_rows, dense_directory_rows, uses_hybrid_directory,
  dense_directory_index, blocked_directory_index, pack_descriptor,
}

-- `(target, relation, evidence, score)`, also what a slot of a page is read as.
pub record Entry : Type 0 where
  pub target : ℕ
  pub relation : ℕ
  pub evidence : ℕ
  pub score : ℕ

abbrev pub entry_fields : Entry → List ℕ
entry_fields e = e.target ∷ e.relation ∷ e.evidence ∷ e.score ∷ 1 ∷ []

abbrev pub Groups : Type 0
Groups = List ((ℕ × ℕ) × List Entry)

abbrev pub with_entry : Option (List Entry) → Entry → List Entry
with_entry none e = e ∷ []
with_entry (some es) e = es ++ e ∷ []

-- `grouped[key].append(entry)` of a `defaultdict`.
abbrev pub add_entry : ℕ × ℕ → Entry → Groups → Groups
add_entry key e groups = insert key (with_entry (lookup key groups) e) groups

abbrev pub entry_of_edge : Edge → Entry
entry_of_edge e = record {
  target = e.target;
  relation = e.relation;
  evidence = e.evidence;
  score = e.score;
}

-- The checks of an edge are those of the packed backend, word for word.
unfoldable pub group_rows : PublicConfig → List Row → Groups → Result Groups
group_rows base [] groups = ok groups
group_rows base (row ∷ rows) groups = do
  e ← validated_edge base row
  group_rows base rows (add_entry (e.source, e.relation) (entry_of_edge e) groups)

unfoldable pub grouped_edges : RelationPageConfig → String → List Row → Result Groups
unfolding group_rows
grouped_edges c owner edges = do
  raise_if (not (contains owner c.base.owners)) value_error
  group_rows c.base edges []

-- The order of tuples: the first difference decides.
abbrev pub lex : ℕ → ℕ → Bool → Bool
lex a b rest = ltb a b || (a == b && rest)

abbrev pub entry_le : Entry → Entry → Bool
entry_le a b =
    lex a.target b.target
      (lex a.relation b.relation (lex a.evidence b.evidence (lex a.score b.score true)))

abbrev pub key_le : (ℕ × ℕ) × List Entry → (ℕ × ℕ) × List Entry → Bool
key_le a b = lex a.0.0 b.0.0 (lex a.0.1 b.0.1 true)

-- The directory, the descriptors outside it and the page pool while the keys are placed.
pub record Placed : Type 0 where
  pub directory : List ℕ
  pub residual : List (ℕ × ℕ)
  pub pool : List (List ℕ)

-- `-(-count // page_size)`
unfoldable pub pages_needed : ℕ → ℕ → Result ℕ
pages_needed count zero = err zero_division_error
pages_needed count (suc n) = ok ((count + n) / suc n)

-- The windows `records[i * page_size : (i + 1) * page_size]` for the first page numbers `i`.
abbrev pub windows : ℕ → ℕ → List Entry → List (List Entry)
windows page_size zero records = []
windows page_size (suc n) records =
    take page_size records ∷ windows page_size n (drop page_size records)

unfoldable pub pack_entry : PublicConfig → Entry → Result ℕ
pack_entry base e = pack_edge base (map element (entry_fields e))

unfoldable pub make_page : RelationPageConfig → List Entry → Result (List ℕ)
make_page c window = do
  page ← map_result (pack_entry c.base) window
  ok (page ++ replicate (c.pages.page_size - length page) 0)

-- The pages of a key, its entries in order.
unfoldable pub make_pages : RelationPageConfig → ℕ → List Entry → Result (List (List ℕ))
make_pages c required records =
    map_result (make_page c) (windows c.pages.page_size required (sort_by entry_le records))

-- The row of the directory, or the residual table when the ontology has no row for the key.
unfoldable pub write_descriptor : RelationPageConfig → ℕ × ℕ → ℕ → Option ℕ → Placed → Result Placed
write_descriptor c key descriptor none p =
    if uses_hybrid_directory c
    then (do
      i ← dense_directory_index c key.0 key.1
      ok (record p { residual = insert (i + 1) descriptor p.residual }))
    else err type_error
write_descriptor c key descriptor (some row) p = do
  directory ← set_item p.directory row descriptor
  ok (record p { directory = directory })

-- One key: its bounds, its pages and its descriptor.
unfoldable pub place_key : RelationPageConfig → (ℕ × ℕ) × List Entry → Placed → Result Placed
place_key c (key, records) p = do
  required ← pages_needed (length records) c.pages.page_size
  raise_if (ltb c.pages.pages_per_key required) value_error
  raise_if (ltb (effective_frontier_per_owner c.pages) (length records)) value_error
  let page_base = length p.pool
  raise_if (ltb c.pages.page_budget (page_base + required)) value_error
  pages ← make_pages c required records
  descriptor ← pack_descriptor c page_base required
  blocked ← blocked_directory_index c key.0 key.1
  write_descriptor c key descriptor blocked (record p { pool = p.pool ++ pages })

unfoldable pub place_keys : RelationPageConfig → Groups → Placed → Result Placed
place_keys c [] p = ok p
place_keys c (group ∷ groups) p = do next ← place_key c group p; place_keys c groups next

pub record OwnerPageLayout : Type 0 where
  pub owner : String
  pub directory : List ℕ
  pub pages : List (List ℕ)
  pub realized_page_count : ℕ
  pub residual_descriptors : Option (List (ℕ × ℕ))

abbrev pub dummy_page : RelationPageConfig → List ℕ
dummy_page c = replicate c.pages.page_size 0

-- The pool padded to the public height.
abbrev pub finished : RelationPageConfig → String → Placed → OwnerPageLayout
finished c owner p = record {
  owner = owner;
  directory = p.directory;
  pages = p.pool ++ replicate (pool_rows c.pages - length p.pool) (dummy_page c);
  realized_page_count = length p.pool;
  residual_descriptors = some p.residual;
}

unfoldable pub build_owner_page_layout :
    RelationPageConfig → String → List Row → Result OwnerPageLayout
build_owner_page_layout c owner edges = do
  grouped ← grouped_edges c owner edges
  rows ← directory_rows c
  placed ←
      place_keys c (sort_by key_le grouped)
        (record { directory = replicate rows 0; residual = []; pool = dummy_page c ∷ [] })
  ok (finished c owner placed)

unfoldable pub write_occupancy : RelationPageConfig → Groups → List ℕ → Result (List ℕ)
write_occupancy c [] occupancy = ok occupancy
write_occupancy c ((key, records) ∷ groups) occupancy = do
  i ← dense_directory_index c key.0 key.1
  next ← set_item occupancy i (length records)
  write_occupancy c groups next

unfoldable pub owner_occupancy_vector : RelationPageConfig → String → List Row → Result (List ℕ)
owner_occupancy_vector c owner edges = do
  grouped ← grouped_edges c owner edges
  rows ← if uses_hybrid_directory c then ok (dense_directory_rows c) else directory_rows c
  write_occupancy c grouped (replicate rows 0)
