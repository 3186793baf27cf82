-- ===== src/Tests/XorPir.antt =====
-- Runs and instances of src/pir/xor_pir.py.
use fed_kg_rag_secure_impl.Prelude.{ℕ, List, ◌≡◌, refl, [], ◌∷◌, arith, ◌%◌, ◌+◌}
use fed_kg_rag_secure_impl.Python.{ok, err, value_error, ◌>>=◌, map_result}
use fed_kg_rag_secure_impl.XorPir.{
  FixedRecordDatabase, pad_record, unpad_record, create_query, answer, recover,
}
use fed_kg_rag_secure_impl.XorPir.Padding.{IsPadded, pad_record-IsPadded}
use fed_kg_rag_secure_impl.XorPir.Recovery.{recover-answer}

abbrev database : FixedRecordDatabase
database = record {
  record_size = 3;
  records = (1 ∷ 2 ∷ 0 ∷ []) ∷ (7 ∷ 255 ∷ 0 ∷ []) ∷ (4 ∷ 5 ∷ 6 ∷ []) ∷ [];
}

abbrev coin : ℕ → ℕ → ℕ
coin server position = (server + position) % 2

pad_two : pad_record (1 ∷ 2 ∷ []) 3 ≡ ok (1 ∷ 2 ∷ 0 ∷ [])
unfolding pad_record
pad_two = refl

outside : create_query 3 coin 3 3 ≡ err value_error
unfolding create_query
outside = refl

unpadded : unpad_record (7 ∷ 255 ∷ 0 ∷ []) ≡ 7 ∷ 255 ∷ []
unfolding unpad_record
unpadded = refl

recover-answer_example :
    (create_query 3 coin 1 3 >>= λ q. map_result (answer database) q.server_vectors >>= recover 3)
    ≡ ok (unpad_record (7 ∷ 255 ∷ 0 ∷ []))
recover-answer_example =
    recover-answer database coin 1 3 (refl, (refl, (refl, tt))) (λ s j. omega arith) (omega arith)
      refl

pad_record-IsPadded_example :
    (padded : List ℕ) × (pad_record (7 ∷ 255 ∷ []) 4 ≡ ok padded) × IsPadded (7 ∷ 255 ∷ []) 4 padded
pad_record-IsPadded_example =
    pad_record-IsPadded (7 ∷ []) 255 4 (λ h. omega (arith, h)) (omega arith)
