-- ===== src/XorPir/Padding.antt =====
-- `pad_record` and `unpad_record`: a payload at the fixed size of a record and back.
use fed_kg_rag_secure_impl.Prelude.{
  ℕ, zero, suc, ◌+◌, ◌-◌, ◌≤◌, ◌≡◌, ◌≢◌, refl, ap, ◌∙◌, List, [], ◌∷◌, ◌++◌, arith, length,
  length-append, length-replicate, replicate,
}
use fed_kg_rag_secure_impl.Python.{ok}
use fed_kg_rag_secure_impl.XorPir.{pad_record, unpad_record, drop_zero}

unpad_record-zeros : (n : ℕ) → unpad_record (replicate n 0) ≡ []
unfolding unpad_record
unpad_record-zeros zero = refl
unpad_record-zeros (suc n) = ap (drop_zero 0) (unpad_record-zeros n)

-- A byte that something stands behind is kept.
drop_zero-kept : (b c : ℕ) (start : List ℕ) → drop_zero b (start ++ c ∷ []) ≡ b ∷ start ++ c ∷ []
drop_zero-kept b c [] = refl
drop_zero-kept b c (x ∷ start) = refl

unpad_record-append :
    (start : List ℕ) (last n : ℕ)
    → last ≢ 0
    → unpad_record (start ++ last ∷ replicate n 0) ≡ start ++ last ∷ []
unfolding unpad_record
unpad_record-append [] last n h = ap (drop_zero last) (unpad_record-zeros n) ∙ ground (arith, h)
unpad_record-append (b ∷ start) last n h =
    ap (drop_zero b) (unpad_record-append start last n h) ∙ drop_zero-kept b last start

-- The record has the fixed size, and it holds the payload.
pub record IsPadded (payload : List ℕ) (record_size : ℕ) (padded : List ℕ) : Type 0 where
  pub size : length padded ≡ record_size
  pub content : unpad_record padded ≡ payload

pad_record-fits :
    (payload : List ℕ) (record_size : ℕ)
    → 1 ≤ record_size
    → length payload ≤ record_size
    → pad_record payload record_size ≡ ok (payload ++ replicate (record_size - length payload) 0)
unfolding pad_record
pad_record-fits payload record_size h k = ground arith

append_one : (xs : List ℕ) (x : ℕ) (ys : List ℕ) → (xs ++ x ∷ []) ++ ys ≡ xs ++ x ∷ ys
append_one [] x ys = refl
append_one (y ∷ xs) x ys = ap (λ (l : List ℕ). y ∷ l) (append_one xs x ys)

-- For a payload whose last byte is not zero and that is not longer than the record size,
-- `pad_record` returns a record of exactly that size, and `unpad_record` of it is the payload.
pub pad_record-IsPadded :
    (start : List ℕ) (last record_size : ℕ)
    → last ≢ 0
    → length start + 1 ≤ record_size
    → (padded : List ℕ) × (pad_record (start ++ last ∷ []) record_size ≡ ok padded)
      × IsPadded (start ++ last ∷ []) record_size padded
pad_record-IsPadded start last record_size h fits =
    let payload : List ℕ = start ++ last ∷ [] in
    let spare : ℕ = record_size - length payload in
    let wide : length payload ≡ length start + 1 = length-append start (last ∷ []) in
    let size : length (payload ++ replicate spare 0) ≡ record_size =
      omega (
        arith,
        length-append payload (replicate spare 0),
        length-replicate {A = ℕ} spare 0,
        wide,
      ) in
    (
      payload ++ replicate spare 0,
      pad_record-fits payload record_size (omega arith) (omega (arith, wide)),
      record {
        size = size;
        content =
            ap unpad_record (append_one start last (replicate spare 0))
            ∙ unpad_record-append start last spare h;
      },
    )
