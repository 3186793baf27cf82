-- ===== src/XorPir/Recovery.antt =====
-- The client recovers the record it asked for from the answers of all servers.
use fed_kg_rag_secure_impl.Prelude.{
  ℕ, zero, suc, ◌-◌, ◌<◌, ◌≤◌, ◌≡◌, sym, ap, ap₂, ◌∙◌, true, some, List, [], ◌∷◌, ◌++◌, arith,
  length, set, get_elem?, All, ltb, length-replicate, length-set, All-append, length-append,
  get_elem?-lt, lt→ltb,
}
use fed_kg_rag_secure_impl.Python.{ok, ◌>>=◌, map_result, map_result-append, length-map_result}
use fed_kg_rag_secure_impl.Python.Sequence.{set_item-ok}
use fed_kg_rag_secure_impl.XorPir.{
  FixedRecordDatabase, zip_xor, unpad_record, draw_vectors, create_query, xor_all, recover, answer,
}
use fed_kg_rag_secure_impl.XorPir.Algebra.{
  zeros, HasWidth, zip_xor_assoc, zip_xor_self, zeros-zip_xor, length-zip_xor, xor_bytes-ok,
  length-selected, selected-zip_xor, selected-zeros, selected-unit,
}
use fed_kg_rag_secure_impl.XorPir.Answers.{
  chosen_sum, answer-selected, Answered, draw_vectors-Answered, IsBit-zeros, IsBit-unit,
  recover-xor_all, length-draw_vectors,
}

-- The answers of all servers add up to the record.
module _ (d : FixedRecordDatabase) (widths : All (HasWidth d.record_size) d.records)
    (bit : ℕ → ℕ → ℕ) (binary : (s j : ℕ) → bit s j < 2) (index m : ℕ) {r : List ℕ}
    (stored : get_elem? d.records index ≡ some r) where
  abbrev size : ℕ
  size = length d.records

  abbrev unit : List ℕ
  unit = set (zeros size) index 1

  abbrev drawn : List (List ℕ) × List ℕ
  drawn = draw_vectors bit size 0 m (zeros size)

  abbrev last : List ℕ
  last = zip_xor drawn.1 unit

  all_answered : Answered d widths drawn.0 (zeros size) drawn.1
  all_answered =
      draw_vectors-Answered d widths bit binary 0 m (zeros size) (length-replicate {A = ℕ} size 0)
        (IsBit-zeros size)

  unit_height : length unit ≡ size
  unit_height = length-set (zeros size) index 1 ∙ length-replicate {A = ℕ} size 0

  last_height : length last ≡ size
  last_height = length-zip_xor drawn.1 unit size all_answered.height unit_height

  answers_add_up :
      zip_xor (zip_xor (zeros d.record_size) all_answered.sum) (chosen_sum d widths last) ≡ r
  answers_add_up =
      let w = d.record_size in
      let a = all_answered.sum in
      let record_width = ap length (sym unit_record) ∙ length-selected w unit d.records widths in
      ap₂ zip_xor (zeros-zip_xor w a all_answered.width) (
        selected-zip_xor w drawn.1 unit d.records (all_answered.height ∙ sym unit_height)
          all_answered.bits (IsBit-unit size index) widths
        ∙ ap₂ zip_xor
            (all_answered.balance
              ∙ ap (λ (t : List ℕ). zip_xor t a) (selected-zeros w size d.records)
              ∙ zeros-zip_xor w a all_answered.width)
            unit_record)
      ∙ sym (zip_xor_assoc a a r)
      ∙ ap (λ (t : List ℕ). zip_xor t r) (zip_xor_self a ∙ ap zeros all_answered.width)
      ∙ zeros-zip_xor w r record_width
    where
      unit_record : chosen_sum d widths unit ≡ r
      unit_record = selected-unit d.record_size index d.records widths stored

  answers : List (List ℕ)
  answers = all_answered.answers ++ chosen_sum d widths last ∷ []

  summed : xor_all (zeros d.record_size) answers ≡ ok r
  unfolding answers xor_all
  summed =
      let w = d.record_size in
      let start = length-replicate {A = ℕ} w 0 in
      let sum_width = length-zip_xor (zeros w) all_answered.sum w start all_answered.width in
      let last_width = length-selected w last d.records widths in
      all_answered.added (zeros w) start (chosen_sum d widths last ∷ [])
      ∙ rw
          (xor_bytes-ok (zip_xor (zeros w) all_answered.sum) (chosen_sum d widths last) w sum_width
            last_width)
          (ap ok answers_add_up)

  queried :
      create_query (suc m) bit index size
      ≡ ok (record { index = index; server_vectors = drawn.0 ++ last ∷ [] })
  unfolding create_query
  queried =
      let inside : ltb index size ≡ true =
        lt→ltb index size (get_elem?-lt d.records index stored) in
      let before : suc m - 1 ≡ m = omega arith in
      rw (
        inside,
        set_item-ok (zeros size) index 1
            (omega (arith, get_elem?-lt d.records index stored, length-replicate {A = ℕ} size 0)),
        before,
      )

  replies : map_result (answer d) (drawn.0 ++ last ∷ []) ≡ ok answers
  unfolding answers
  replies =
      map_result-append (answer d) drawn.0 (last ∷ []) all_answered.answers
        (chosen_sum d widths last ∷ []) all_answered.answered
        (rw (answer-selected d widths last last_height))

  count : length answers ≡ suc m
  unfolding answers
  count =
      length-append all_answered.answers (chosen_sum d widths last ∷ [])
      ∙ omega (
        arith,
        length-map_result (answer d) drawn.0 all_answered.answered,
        length-draw_vectors bit size 0 m (zeros size),
      )

  wide : All (HasWidth d.record_size) answers
  unfolding answers
  wide =
      All-append (HasWidth d.record_size) all_answered.answers (chosen_sum d widths last ∷ [])
        all_answered.wide (length-selected d.record_size last d.records widths, tt)

-- When all records have the declared size, the random bits are zero or one, there are at least two
-- servers and the index is that of a record, creating a query, answering it at every server and
-- recovering from the answers succeeds and returns that record without its trailing zeros.
pub recover-answer :
    (d : FixedRecordDatabase) (bit : ℕ → ℕ → ℕ) (index server_count : ℕ) {r : List ℕ}
    → All (HasWidth d.record_size) d.records
    → ((s j : ℕ) → bit s j < 2)
    → 2 ≤ server_count
    → get_elem? d.records index ≡ some r
    → (create_query server_count bit index (length d.records) >>= λ q.
        map_result (answer d) q.server_vectors >>= recover server_count)
      ≡ ok (unpad_record r)
recover-answer d bit index zero widths binary enough stored = absurd (omega arith)
recover-answer d bit index (suc m) {r} widths binary enough stored = rw (
  queried d widths bit binary index m stored,
  replies d widths bit binary index m stored,
  recover-xor_all d.record_size m (answers d widths bit binary index m stored)
      (count d widths bit binary index m stored) (wide d widths bit binary index m stored)
      (summed d widths bit binary index m stored),
)
