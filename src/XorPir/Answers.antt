-- ===== src/XorPir/Answers.antt =====
-- The sum of the answers to a list of vectors.
use fed_kg_rag_secure_impl.Prelude.{
  ℕ, zero, suc, ◌+◌, ◌<◌, ◌≡◌, refl, sym, ap, ◌∙◌, true, List, [], ◌∷◌, ◌++◌, map, arith, length,
  set, All, bit_xor, ◌==◌, length-replicate, length-map,
}
use fed_kg_rag_secure_impl.Python.{ok, map_result}
use fed_kg_rag_secure_impl.Config.{range_from}
use fed_kg_rag_secure_impl.XorPir.{
  FixedRecordDatabase, zip_xor, unpad_record, draw_vectors, xor_all, recover, answer,
}
use fed_kg_rag_secure_impl.XorPir.Algebra.{
  zeros, HasWidth, IsBit, selected, zip_xor_assoc, zip_xor_comm, zeros-zip_xor, length-zip_xor,
  xor_bytes-ok, length-selected, selected-zip_xor, xor_selected-selected,
}

length-range_from : (lo n : ℕ) → length (range_from lo n) ≡ n
length-range_from lo zero = refl
length-range_from lo (suc n) = ap suc (length-range_from (lo + 1) n)

-- The sum of the answers of the servers to their vectors.
module _ (d : FixedRecordDatabase) (widths : All (HasWidth d.record_size) d.records) where
  abbrev pub chosen_sum : List ℕ → List ℕ
  chosen_sum v = selected d.record_size v d.records

  pub answer-selected : (v : List ℕ) → length v ≡ length d.records → answer d v ≡ ok (chosen_sum v)
  unfolding answer
  answer-selected v same =
      let even : (length v == length d.records) ≡ true = ground arith in
      rw
        (
          even,
          xor_selected-selected d.record_size v d.records (zeros d.record_size) same
              (length-replicate {A = ℕ} d.record_size 0) widths,
        )
        (ap ok (zeros-zip_xor d.record_size _ (length-selected d.record_size v d.records widths)))

  -- The answers to a list of vectors, and their sum.
  pub record Answered (vectors : List (List ℕ)) (acc acc' : List ℕ) : Type 0 where
    pub answers : List (List ℕ)
    pub sum : List ℕ
    pub answered : map_result (answer d) vectors ≡ ok answers
    pub width : HasWidth d.record_size sum
    pub wide : All (HasWidth d.record_size) answers
    pub added :
        (start : List ℕ)
        → HasWidth d.record_size start
        → (more : List (List ℕ))
        → xor_all start (answers ++ more) ≡ xor_all (zip_xor start sum) more
    pub balance : chosen_sum acc' ≡ zip_xor (chosen_sum acc) sum
    pub height : length acc' ≡ length d.records
    pub bits : All IsBit acc'

  module _ (bit : ℕ → ℕ → ℕ) (binary : (s j : ℕ) → bit s j < 2) where
    IsBit-map : (s : ℕ) (js : List ℕ) → All IsBit (map (bit s) js)
    IsBit-map s [] = tt
    IsBit-map s (j ∷ js) = (binary s j, IsBit-map s js)

    xor-IsBit : (a b : ℕ) → a < 2 → b < 2 → bit_xor a b < 2
    xor-IsBit zero zero h k = omega arith
    xor-IsBit zero (suc zero) h k = omega arith
    xor-IsBit (suc zero) zero h k = omega arith
    xor-IsBit (suc zero) (suc zero) h k = omega arith
    xor-IsBit zero (suc (suc b)) h k = absurd (omega arith)
    xor-IsBit (suc zero) (suc (suc b)) h k = absurd (omega arith)
    xor-IsBit (suc (suc a)) b h k = absurd (omega arith)

    IsBit-zip_xor : (u v : List ℕ) → All IsBit u → All IsBit v → All IsBit (zip_xor u v)
    unfolding zip_xor
    IsBit-zip_xor [] v h k = tt
    IsBit-zip_xor (a ∷ u) [] h k = tt
    IsBit-zip_xor (a ∷ u) (b ∷ v) h k = (xor-IsBit a b h.0 k.0, IsBit-zip_xor u v h.1 k.1)

    pub draw_vectors-Answered :
        (s m : ℕ) (acc : List ℕ)
        → length acc ≡ length d.records
        → All IsBit acc
        → Answered
            (draw_vectors bit (length d.records) s m acc).0
            acc
            (draw_vectors bit (length d.records) s m acc).1
    unfolding draw_vectors xor_all
    draw_vectors-Answered s zero acc same h = record {
      answers = [];
      sum = zeros d.record_size;
      answered = refl;
      width = length-replicate {A = ℕ} d.record_size 0;
      wide = tt;
      added = λ start k more.
          ap (λ (t : List ℕ). xor_all t more)
            (sym (zip_xor_comm start (zeros d.record_size) ∙ zeros-zip_xor d.record_size start k));
      balance = sym (
          zip_xor_comm (chosen_sum acc) (zeros d.record_size)
          ∙ zeros-zip_xor d.record_size _ (length-selected d.record_size acc d.records widths));
      height = same;
      bits = h;
    }
    draw_vectors-Answered s (suc m) acc same h =
        let w = d.record_size in
        let v = map (bit s) (range_from 0 (length d.records)) in
        let a = chosen_sum v in
        let size : length v ≡ length d.records =
          length-map (range_from 0 (length d.records)) (bit s)
          ∙ length-range_from 0 (length d.records) in
        let wide : HasWidth w a = length-selected w v d.records widths in
        let bits = IsBit-map s (range_from 0 (length d.records)) in
        let r =
          draw_vectors-Answered (s + 1) m (zip_xor acc v)
            (length-zip_xor acc v (length d.records) same size) (IsBit-zip_xor acc v h bits) in
        record {
          answers = a ∷ r.answers;
          sum = zip_xor a r.sum;
          answered = rw (answer-selected v size, r.answered);
          width = length-zip_xor a r.sum w wide r.width;
          wide = (wide, r.wide);
          added = λ start k more. rw (xor_bytes-ok start a w k wide) (
              r.added (zip_xor start a) (length-zip_xor start a w k wide) more
              ∙ ap (λ (t : List ℕ). xor_all t more) (zip_xor_assoc start a r.sum));
          balance =
              r.balance
              ∙ ap (λ (t : List ℕ). zip_xor t r.sum)
                  (selected-zip_xor w acc v d.records (same ∙ sym size) h bits widths)
              ∙ zip_xor_assoc (chosen_sum acc) a r.sum;
          height = r.height;
          bits = r.bits;
        }

pub IsBit-zeros : (n : ℕ) → All IsBit (zeros n)
IsBit-zeros zero = tt
IsBit-zeros (suc n) = (omega arith, IsBit-zeros n)

pub IsBit-unit : (n i : ℕ) → All IsBit (set (zeros n) i 1)
IsBit-unit zero i = tt
IsBit-unit (suc n) zero = (omega arith, IsBit-zeros n)
IsBit-unit (suc n) (suc i) = (omega arith, IsBit-unit n i)

-- Starting from the first answer or from zeros before it is the same.
pub recover-xor_all :
    (w n : ℕ) (answers : List (List ℕ)) {out : List ℕ}
    → length answers ≡ suc n
    → All (HasWidth w) answers
    → xor_all (zeros w) answers ≡ ok out
    → recover (suc n) answers ≡ ok (unpad_record out)
unfolding recover xor_all
recover-xor_all w n [] count wide h = absurd (omega arith)
recover-xor_all w n (first ∷ rest) {out} count wide h =
    let all_there : (suc (length rest) == suc n) ≡ true = ground arith in
    let started : xor_all (zip_xor (zeros w) first) rest ≡ ok out =
      rw (xor_bytes-ok (zeros w) first w (length-replicate {A = ℕ} w 0) wide.0) at h in
    rw (all_there, ← zeros-zip_xor w first wide.0, started)

pub length-draw_vectors :
    (bit : ℕ → ℕ → ℕ) (size s m : ℕ) (acc : List ℕ) → length (draw_vectors bit size s m acc).0 ≡ m
unfolding draw_vectors
length-draw_vectors bit size s zero acc = refl
length-draw_vectors bit size s (suc m) acc = ap suc (length-draw_vectors bit size (s + 1) m _)
