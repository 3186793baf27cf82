-- ===== src/Reference.antt =====
-- doram_t2_3pc/reference.py: `evaluate_cleartext`, the oracle over the raw edges. The ranking of the
-- candidates is the code of `evaluate_paged_cleartext`, word for word, and is shared with it.
use fed_kg_rag_secure_impl.Prelude.{
  ℕ, ◌+◌, ◌-◌, ◌*◌, String, Bool, true, false, Option, none, some, List, [], ◌∷◌, ◌++◌, not, ltb,
  leb, ◌==◌, ◌&&◌, length, replicate, if◌then◌else◌,
}
use fed_kg_rag_secure_impl.Prelude.Bits.{◌<<<◌}
use fed_kg_rag_secure_impl.Python.{
  Json, null, other, bool, str, int, pos, negsuc, Result, ok, err, value_error, assertion_error,
  ◌>>=◌, ◌>>◌, raise_if, map_result, lookup, string_key, pair_key,
}
use fed_kg_rag_secure_impl.Python.Counter.{Counter, count_of, increment}
use fed_kg_rag_secure_impl.Python.Sequence.{item, get_item, set_item, keys_of, same_names}
use fed_kg_rag_secure_impl.Config.{
  PublicConfig, entity_count, block_edges, relation_frontier_per_owner, uses_frontier_compaction,
}
use fed_kg_rag_secure_impl.Packed.Edges.{Row, has_exactly, ontology_id}
use fed_kg_rag_secure_impl.Pages.Evaluate.{Candidate, ResultRow, concat, parse_query, rank}

pub record Record : Type 0 where
  pub target : ℕ
  pub relation : ℕ
  pub evidence : ℕ
  pub score : ℕ
  pub valid : ℕ

abbrev pub zero_record : Record
zero_record = record { target = 0; relation = 0; evidence = 0; score = 0; valid = 0 }

-- `_checked_int`: an integer in `[0, upper)`, or in `[1, upper)` when zero is reserved.
unfoldable pub checked_int : Option Json → ℕ → Bool → Result ℕ
checked_int (some (int (pos n))) upper_exclusive reserve_zero = do
  raise_if (not (leb (if reserve_zero then 1 else 0) n && ltb n upper_exclusive)) value_error
  ok n
checked_int (some (int (negsuc n))) upper_exclusive reserve_zero = err value_error
checked_int (some null) upper_exclusive reserve_zero = err value_error
checked_int (some other) upper_exclusive reserve_zero = err value_error
checked_int (some (bool b)) upper_exclusive reserve_zero = err value_error
checked_int (some (str s)) upper_exclusive reserve_zero = err value_error
checked_int none upper_exclusive reserve_zero = err value_error

-- The checks of one raw edge: its source, and the record that is stored.
unfoldable pub raw_record : PublicConfig → Row → Result (ℕ × Record)
unfolding checked_int
raw_record c edge = do
  raise_if (not (has_exactly ("source" ∷ "relation" ∷ "target" ∷ "evidence" ∷ "score" ∷ []) edge))
      value_error
  source ← ontology_id c.entities (lookup "source" edge)
  target ← ontology_id c.entities (lookup "target" edge)
  relation ← ontology_id c.relations (lookup "relation" edge)
  evidence ← checked_int (lookup "evidence" edge) (1 <<< c.evidence_bits) true
  score ← checked_int (lookup "score" edge) (1 <<< c.score_bits) false
  ok (
    source,
    record { target = target; relation = relation; evidence = evidence; score = score; valid = 1 },
  )

-- The first loop of `_raw_owner_buckets`; an edge that exceeds the relation bound is refused after
-- it is stored.
unfoldable pub fill_raw_buckets :
    PublicConfig → List Row → List (List Record) → Counter (ℕ × ℕ) → Result (List (List Record))
unfolding raw_record
fill_raw_buckets c [] buckets counts = ok buckets
fill_raw_buckets c (edge ∷ edges) buckets counts = do
  (source, r) ← raw_record c edge
  bucket ← get_item buckets source
  next ← set_item buckets source (bucket ++ r ∷ [])
  let counted = increment (source, r.relation) counts
  raise_if (ltb (relation_frontier_per_owner c) (count_of (source, r.relation) counted)) value_error
  fill_raw_buckets c edges next counted

-- The second loop: each bucket padded to the fanout.
unfoldable pub pad_bucket : PublicConfig → List Record → Result (List Record)
pad_bucket c bucket = do
  raise_if (ltb c.fanout_per_owner (length bucket)) value_error
  ok (bucket ++ replicate (c.fanout_per_owner - length bucket) zero_record)

unfoldable pub raw_owner_buckets : PublicConfig → List Row → Result (List (List Record))
unfolding fill_raw_buckets pad_bucket
raw_owner_buckets c edges = do
  buckets ← fill_raw_buckets c edges (replicate (entity_count c) []) []
  map_result (pad_bucket c) buckets

abbrev Buckets : Type 0
Buckets = List (String × List (List Record))

abbrev owner_bucket : Buckets → ℕ → String → Result (List Record)
owner_bucket buckets entity owner = do mine ← item owner buckets; get_item mine entity

-- `block(entity)`: the buckets of all owners, one after the other.
unfoldable pub block : PublicConfig → Buckets → ℕ → Result (List Record)
block c buckets entity = do
  parts ← map_result (owner_bucket buckets entity) c.owners
  ok (concat parts)

abbrev holds : Record → ℕ → Bool
holds r relation = not (r.valid == 0) && (not (r.target == 0) && r.relation == relation)

abbrev matching : ℕ → List Record → List Record
matching relation [] = []
matching relation (r ∷ rs) =
    if holds r relation then r ∷ matching relation rs else matching relation rs

-- A first-hop match with the public slot that breaks ties.
pub record FirstHop : Type 0 where
  pub slot : ℕ
  pub target : ℕ
  pub handle : ℕ
  pub score : ℕ

abbrev numbered : ℕ → List Record → List FirstHop
numbered slot [] = []
numbered slot (r ∷ rs) =
    record { slot = slot; target = r.target; handle = r.evidence; score = r.score }
    ∷ numbered (slot + 1) rs

-- The frontier with a fixed width for each owner.
unfoldable pub compact_frontier :
    PublicConfig → Buckets → ℕ → ℕ → ℕ → List String → Result (List FirstHop)
compact_frontier c buckets source relation owner_index [] = ok []
compact_frontier c buckets source relation owner_index (owner ∷ owners) = do
  bucket ← owner_bucket buckets source owner
  let found = matching relation bucket
  raise_if (ltb (relation_frontier_per_owner c) (length found)) assertion_error
  rest ← compact_frontier c buckets source relation (owner_index + 1) owners
  ok (numbered (owner_index * relation_frontier_per_owner c) found ++ rest)

-- The matches of a block, each with its position in it.
unfoldable pub positions : ℕ → ℕ → List Record → List FirstHop
positions relation slot [] = []
positions relation slot (r ∷ rs) =
    if holds r relation
    then record { slot = slot; target = r.target; handle = r.evidence; score = r.score }
      ∷ positions relation (slot + 1) rs
    else positions relation (slot + 1) rs

unfoldable pub first_frontier : PublicConfig → Buckets → ℕ → ℕ → Result (List FirstHop)
unfolding compact_frontier positions block
first_frontier c buckets source relation =
    if uses_frontier_compaction c
    then compact_frontier c buckets source relation 0 c.owners
    else (do records ← block c buckets source; ok (positions relation 0 records))

abbrev join : PublicConfig → FirstHop → List FirstHop → List Candidate
join c first [] = []
join c first (second ∷ rest) =
    record {
      score = first.score + second.score;
      order = first.slot * block_edges c + second.slot;
      left = first.handle;
      right = second.handle;
      terminal = second.target;
    }
    ∷ join c first rest

unfoldable pub join_all : PublicConfig → Buckets → ℕ → List FirstHop → Result (List Candidate)
unfolding positions block
join_all c buckets relation [] = ok []
join_all c buckets relation (first ∷ frontier) = do
  records ← block c buckets first.target
  rest ← join_all c buckets relation frontier
  ok (join c first (positions relation 0 records) ++ rest)

abbrev named_buckets :
    PublicConfig → List (String × List Row) → String → Result (String × List (List Record))
named_buckets c owner_edges owner = do
  edges ← item owner owner_edges
  buckets ← raw_owner_buckets c edges
  ok (owner, buckets)

unfoldable pub evaluate_cleartext :
    PublicConfig → List (String × List Row) → Row → Result (List ResultRow)
unfolding parse_query raw_owner_buckets first_frontier join_all rank
evaluate_cleartext c owner_edges query = do
  raise_if (not (same_names (keys_of owner_edges) c.owners)) value_error
  q ← parse_query c query
  buckets ← map_result (named_buckets c owner_edges) c.owners
  frontier ← first_frontier c buckets q.source q.relation_1
  candidates ← join_all c buckets q.relation_2 frontier
  ok (rank c candidates)
