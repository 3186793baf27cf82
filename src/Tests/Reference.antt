-- ===== src/Tests/Reference.antt =====
-- A run of doram_t2_3pc/reference.py on the query of the paged evaluation.
use fed_kg_rag_secure_impl.Prelude.{◌≡◌, refl, [], ◌∷◌}
use fed_kg_rag_secure_impl.Python.{ok}
use fed_kg_rag_secure_impl.Python.Sequence.{sort_by}
use fed_kg_rag_secure_impl.Config.{
  entity_count, block_edges, frontier_edges, relation_frontier_per_owner, uses_frontier_compaction,
}
use fed_kg_rag_secure_impl.Packed.Edges.{has_exactly, ontology_id}
use fed_kg_rag_secure_impl.Pages.Evaluate.{parse_query, rank, select, result_rows}
use fed_kg_rag_secure_impl.Reference.{
  evaluate_cleartext, raw_owner_buckets, fill_raw_buckets, raw_record, checked_int, pad_bucket,
  first_frontier, compact_frontier, positions, block, join_all,
}
use fed_kg_rag_secure_impl.Tests.Config.{two_owners}
use fed_kg_rag_secure_impl.Tests.Packed.{two_rows}
use fed_kg_rag_secure_impl.Tests.Pages.{query, second_rows}

same_answer :
    evaluate_cleartext two_owners (("a", two_rows) ∷ ("b", second_rows) ∷ []) query
    ≡ ok (
        record { valid = 1; left_evidence = 9; right_evidence = 7; score = 105 }
        ∷ record { valid = 0; left_evidence = 0; right_evidence = 0; score = 0 }
        ∷ [])
unfolding evaluate_cleartext raw_owner_buckets fill_raw_buckets raw_record checked_int pad_bucket
    first_frontier compact_frontier positions block join_all parse_query rank select result_rows
    has_exactly ontology_id sort_by entity_count block_edges frontier_edges
    relation_frontier_per_owner uses_frontier_compaction
same_answer = refl
