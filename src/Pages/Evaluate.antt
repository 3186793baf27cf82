-- ===== src/Pages/Evaluate.antt =====
-- `evaluate_paged_cleartext`: two dependent reads of the built layouts and the ranking of the paths.
use fed_kg_rag_secure_impl.Prelude.{
  ℕ, zero, suc, ◌+◌, ◌-◌, ◌*◌, String, Bool, true, false, Option, none, some, List, [], ◌∷◌, ◌++◌,
  not, ltb, ◌==◌, ◌&&◌, ◌||◌, length, replicate, get_or, if◌then◌else◌,
}
use fed_kg_rag_secure_impl.Python.{
  Result, ok, err, value_error, type_error, assertion_error, ◌>>=◌, ◌>>◌, raise_if, map_result,
  contains, lookup, string_key, nat_key,
}
use fed_kg_rag_secure_impl.Python.Sequence.{item, get_item, keys_of, sort_by, same_names}
use fed_kg_rag_secure_impl.Config.{PublicConfig, range_from}
use fed_kg_rag_secure_impl.Packed.{unpack_edge}
use fed_kg_rag_secure_impl.Packed.Edges.{Row, has_exactly, ontology_id}
use fed_kg_rag_secure_impl.Pages.{slots_per_key, effective_frontier_per_owner}
use fed_kg_rag_secure_impl.Pages.Directory.{
  RelationPageConfig, uses_hybrid_directory, dense_directory_index, blocked_directory_index,
  unpack_descriptor,
}
use fed_kg_rag_secure_impl.Pages.Build.{Entry, OwnerPageLayout, build_owner_page_layout, lex}

abbrev pub empty_slot : Entry
empty_slot = record { target = 0; relation = 0; evidence = 0; score = 0 }

-- The five fields of an unpacked edge; a zero valid bit or target is an empty slot.
abbrev slot_of : List ℕ → Result Entry
slot_of fields = do
  raise_if (not (length fields == 5)) value_error
  ok (
      if get_or fields 4 0 == 0 || get_or fields 0 0 == 0 then empty_slot else record {
        target = get_or fields 0 0;
        relation = get_or fields 1 0;
        evidence = get_or fields 2 0;
        score = get_or fields 3 0;
      })

unfoldable pub read_slot : PublicConfig → Bool → ℕ → Result Entry
read_slot base active value =
    if not active || value == 0
    then ok empty_slot
    else (do fields ← unpack_edge base value; slot_of fields)

unfoldable pub read_page : RelationPageConfig → OwnerPageLayout → ℕ → ℕ → ℕ → Result (List Entry)
unfolding read_slot
read_page c layout page_base page_count page_number = do
  let active = ltb page_number page_count
  page ← get_item layout.pages (if active then page_base + page_number else 0)
  map_result (read_slot c.base active) page

abbrev pub concat {ℓ} : {A : Type ℓ} → List (List A) → List A
concat [] = []
concat (xs ∷ xss) = xs ++ concat xss

-- The window of `pages_per_key` pages of a descriptor.
unfoldable pub read_window : RelationPageConfig → OwnerPageLayout → ℕ × ℕ → Result (List Entry)
unfolding read_page
read_window c layout (page_base, page_count) = do
  pages ← map_result (read_page c layout page_base page_count) (range_from 0 c.pages.pages_per_key)
  ok (concat pages)

abbrev residual_of : Option (List (ℕ × ℕ)) → ℕ → ℕ
residual_of none key = 0
residual_of (some d) key = elim (lookup key d) [ none ↦ 0 | some descriptor ↦ descriptor ]

abbrev stored_descriptor : RelationPageConfig → OwnerPageLayout → ℕ → ℕ → Option ℕ → Result ℕ
stored_descriptor c layout entity relation none =
    if uses_hybrid_directory c
    then (do
      i ← dense_directory_index c entity relation
      ok (residual_of layout.residual_descriptors (i + 1)))
    else err type_error
stored_descriptor c layout entity relation (some row) = get_item layout.directory row

unfoldable pub find_descriptor : RelationPageConfig → OwnerPageLayout → ℕ → ℕ → Result ℕ
find_descriptor c layout entity relation = if entity == 0 then ok 0 else (do
  blocked ← blocked_directory_index c entity relation
  stored_descriptor c layout entity relation blocked)

abbrev pub matches : List Entry → List Entry
matches [] = []
matches (e ∷ es) = if e.target == 0 then matches es else e ∷ matches es

-- The slots that match moved to the front of a frontier of fixed width, in their order.
unfoldable pub compacted : ℕ → List Entry → Result (List Entry)
compacted width slots = do
  raise_if (ltb width (length (matches slots))) assertion_error
  ok (matches slots ++ replicate (width - length (matches slots)) empty_slot)

unfoldable pub read_owner :
    RelationPageConfig → OwnerPageLayout → ℕ → ℕ → Bool → Result (List Entry)
unfolding find_descriptor read_window compacted
read_owner c layout entity relation compact = do
  descriptor ← find_descriptor c layout entity relation
  slots ← read_window c layout (unpack_descriptor c descriptor)
  if compact then compacted (effective_frontier_per_owner c.pages) slots else ok slots

abbrev Layouts : Type 0
Layouts = List (String × OwnerPageLayout)

abbrev read_named : RelationPageConfig → Layouts → ℕ → ℕ → Bool → String → Result (List Entry)
read_named c layouts entity relation compact owner = do
  layout ← item owner layouts
  read_owner c layout entity relation compact

-- Owner by owner, page by page, slot by slot.
unfoldable pub read_key : RelationPageConfig → Layouts → ℕ → ℕ → Bool → Result (List Entry)
unfolding read_owner
read_key c layouts entity relation compact = do
  slots ← map_result (read_named c layouts entity relation compact) c.base.owners
  ok (concat slots)

unfoldable pub global_compaction : RelationPageConfig → List Entry → Result (List Entry)
unfolding compacted
global_compaction c frontier = elim c.pages.global_frontier [
  | none ↦ ok frontier
  | some width ↦ compacted width frontier
]

-- A path; the code sorts `(-score, order, left, right, terminal)`.
pub record Candidate : Type 0 where
  pub score : ℕ
  pub order : ℕ
  pub left : ℕ
  pub right : ℕ
  pub terminal : ℕ

abbrev pub candidate_le : Candidate → Candidate → Bool
candidate_le a b =
    lex b.score a.score (
      lex a.order b.order
        (lex a.left b.left (lex a.right b.right (lex a.terminal b.terminal true))))

-- The inner loop: one first-hop slot with the slots of the second read.
abbrev join_slots : Entry → ℕ → List Entry → List Candidate
join_slots first order [] = []
join_slots first order (second ∷ slots) =
    if second.target == 0
    then join_slots first (order + 1) slots
    else record {
      score = first.score + second.score;
      order = order;
      left = first.evidence;
      right = second.evidence;
      terminal = second.target;
    }
      ∷ join_slots first (order + 1) slots

abbrev candidates_of : RelationPageConfig → Layouts → ℕ → ℕ → ℕ → Entry → Result (List Candidate)
candidates_of c layouts relation second_width first_index first =
    if first.target == 0 then ok [] else (do
      slots ← read_key c layouts first.target relation false
      ok (join_slots first (first_index * second_width) slots))

-- The outer loop over the frontier.
unfoldable pub join_frontier :
    RelationPageConfig → Layouts → ℕ → ℕ → ℕ → List Entry → Result (List Candidate)
join_frontier c layouts relation second_width first_index [] = ok []
join_frontier c layouts relation second_width first_index (first ∷ frontier) = do
  candidates ← candidates_of c layouts relation second_width first_index first
  rest ← join_frontier c layouts relation second_width (first_index + 1) frontier
  ok (candidates ++ rest)

-- The selection loop; `chosen` is `len(selected)`, and it stops when that reaches `top_k`.
unfoldable pub select : Bool → ℕ → List ℕ → ℕ → List Candidate → List Candidate
select deduplicate top_k seen chosen [] = []
select deduplicate top_k seen chosen (a ∷ candidates) =
    let skipped = select deduplicate top_k seen chosen candidates in
    let rest = select deduplicate top_k (a.terminal ∷ seen) (chosen + 1) candidates in
    if deduplicate && contains a.terminal seen
    then skipped
    else if chosen + 1 == top_k
    then a ∷ []
    else a ∷ rest

pub record ResultRow : Type 0 where
  pub valid : ℕ
  pub left_evidence : ℕ
  pub right_evidence : ℕ
  pub score : ℕ

-- `top_k` rows, the missing ones all zero.
unfoldable pub result_rows : ℕ → List Candidate → List ResultRow
result_rows zero selected = []
result_rows (suc n) [] =
    record { valid = 0; left_evidence = 0; right_evidence = 0; score = 0 } ∷ result_rows n []
result_rows (suc n) (a ∷ selected) =
    record { valid = 1; left_evidence = a.left; right_evidence = a.right; score = a.score }
    ∷ result_rows n selected

-- The ranking of all candidates.
unfoldable pub rank : PublicConfig → List Candidate → List ResultRow
unfolding select result_rows
rank base candidates =
    result_rows base.top_k
      (select base.deduplicate_terminal_answers base.top_k [] 0 (sort_by candidate_le candidates))

pub record Query : Type 0 where
  pub source : ℕ
  pub relation_1 : ℕ
  pub relation_2 : ℕ

unfoldable pub parse_query : PublicConfig → Row → Result Query
parse_query base query = do
  raise_if (not (has_exactly ("source" ∷ "relation_1" ∷ "relation_2" ∷ []) query)) value_error
  source ← ontology_id base.entities (lookup "source" query)
  relation_1 ← ontology_id base.relations (lookup "relation_1" query)
  relation_2 ← ontology_id base.relations (lookup "relation_2" query)
  ok (record { source = source; relation_1 = relation_1; relation_2 = relation_2 })

abbrev build_named :
    RelationPageConfig → List (String × List Row) → String → Result (String × OwnerPageLayout)
build_named c owner_edges owner = do
  edges ← item owner owner_edges
  layout ← build_owner_page_layout c owner edges
  ok (owner, layout)

-- The layouts the caller prepared, or those built from the edges.
unfoldable pub layouts_for :
    RelationPageConfig → List (String × List Row) → Option Layouts → Result Layouts
layouts_for c owner_edges none = map_result (build_named c owner_edges) c.base.owners
layouts_for c owner_edges (some layouts) = do
  raise_if (not (same_names (keys_of layouts) c.base.owners)) value_error
  ok layouts

unfoldable pub evaluate_paged_cleartext :
    RelationPageConfig → List (String × List Row) → Row → Option Layouts → Result (List ResultRow)
unfolding parse_query layouts_for read_key global_compaction join_frontier rank
evaluate_paged_cleartext c owner_edges query prepared = do
  raise_if (not (same_names (keys_of owner_edges) c.base.owners)) value_error
  q ← parse_query c.base query
  layouts ← layouts_for c owner_edges prepared
  first ← read_key c layouts q.source q.relation_1 true
  frontier ← global_compaction c first
  let second_width = length c.base.owners * slots_per_key c.pages
  candidates ← join_frontier c layouts q.relation_2 second_width 0 frontier
  ok (rank c.base candidates)
