-- ===== src/MultipartyFss/Evaluate/Row.antt =====
-- The vector of a row: the sum of the masked words of the columns that the party holds.
use fed_kg_rag_secure_impl.Prelude.{
  ℕ, zero, suc, ◌+◌, ◌<◌, ◌≤◌, ◌≡◌, refl, sym, ap, ◌∙◌, Bool, true, arith, length, ◌==◌, bit_xor,
  if◌then◌else◌, Bool-cases, inl, inr,
}
use fed_kg_rag_secure_impl.Prelude.Xor.{bit_xor_assoc}
use fed_kg_rag_secure_impl.Prelude.XorSum.{bit_xor-zero}
use fed_kg_rag_secure_impl.Python.{ok}
use fed_kg_rag_secure_impl.MultipartyFss.Params.{MpDpfParams, seed_bytes, seeds_per_row}
use fed_kg_rag_secure_impl.MultipartyFss.Arrays.{WordArrays, Bytes}
use fed_kg_rag_secure_impl.MultipartyFss.KeyShare.{MpDpfKeyShare, seed_block, cw_row, expand_seed}
use fed_kg_rag_secure_impl.MultipartyFss.Keygen.{zero_block}
use fed_kg_rag_secure_impl.MultipartyFss.Keygen.Words.{
  IsWide, IsWide-xor, get-xor_wide, Adds, start-Adds, next-Adds,
}
use fed_kg_rag_secure_impl.MultipartyFss.Evaluate.{row_loop, any_byte}

module _ (a : WordArrays) (G : MpDpfParams → Bytes → a.Array) (k : MpDpfKeyShare a) where
  -- What a key share holds of a row.
  pub record HoldsRow (row : ℕ) (holds : ℕ → Bool) (seed : ℕ → Bytes) (word : ℕ → a.Array)
      : Type 0 where
    pub block :
        (j : ℕ)
        → j < seeds_per_row k.params
        → seed_block a k row j ≡ (if holds j then seed j else zero_block)
    pub cw : (j : ℕ) → j < seeds_per_row k.params → cw_row a k j ≡ word j
    pub seed_size : (j : ℕ) → length (seed j) ≡ seed_bytes
    pub seed_set : (j : ℕ) → any_byte (seed j) ≡ true
    pub word_wide : (j : ℕ) → IsWide a k.params (word j)
    pub expansion_wide : (j : ℕ) → IsWide a k.params (G k.params (seed j))

  -- The word of a column under its mask.
  abbrev pub masked : (ℕ → Bytes) → (ℕ → a.Array) → ℕ → ℕ → ℕ
  masked seed word d j = bit_xor (a.get (word j) d) (a.get (G k.params (seed j)) d)

  abbrev pub held_term : (ℕ → Bool) → (ℕ → Bytes) → (ℕ → a.Array) → ℕ → ℕ → ℕ
  held_term holds seed word d j = if holds j then masked seed word d j else 0

  pub row_loop-Adds :
      (row : ℕ) (holds : ℕ → Bool) (seed : ℕ → Bytes) (word : ℕ → a.Array) (j more : ℕ)
      (start : a.Array)
      → HoldsRow row holds seed word
      → IsWide a k.params start
      → j + more ≤ seeds_per_row k.params
      → (out : a.Array) × (row_loop a G k row j more start ≡ ok out)
        × Adds a k.params start (held_term holds seed word) j more out
  unfolding row_loop expand_seed
  row_loop-Adds row holds seed word j zero start r h small =
      (start, refl, start-Adds a k.params start (held_term holds seed word) j h)
  row_loop-Adds row holds seed word j (suc more) start r h small = elim (Bool-cases (holds j)) [
    | inl held ↦
        let c = cw_row a k j in
        let g = G k.params (seed j) in
        let block : seed_block a k row j ≡ seed j = r.block j (omega arith) ∙ rw held in
        let full : (length (seed j) == seed_bytes) ≡ true = ground (arith, r.seed_size j) in
        let next = a.xor (a.xor start (word j)) g in
        let first_wide = IsWide-xor a k.params start (word j) h (r.word_wide j) in
        let next_wide =
          IsWide-xor a k.params (a.xor start (word j)) g first_wide (r.expansion_wide j) in
        let (out, run, adds) =
          row_loop-Adds row holds seed word (suc j) more next r next_wide (omega arith) in
        (
          out,
          rw (block, r.seed_set j, full, r.cw j (omega arith)) run,
          next-Adds a k.params start next (held_term holds seed word) j more
              (λ d low.
                get-xor_wide a k.params (a.xor start (word j)) g d first_wide (r.expansion_wide j)
                  low
                ∙ ap (λ (t : ℕ). bit_xor t (a.get g d))
                    (get-xor_wide a k.params start (word j) d h (r.word_wide j) low)
                ∙ bit_xor_assoc (a.get start d) (a.get (word j) d) (a.get g d)
                ∙ ap (bit_xor (a.get start d)) (rw held))
              adds,
        )
    | inr missing ↦
        let block : seed_block a k row j ≡ zero_block = r.block j (omega arith) ∙ rw missing in
        let (out, run, adds) =
          row_loop-Adds row holds seed word (suc j) more start r h (omega arith) in
        (
          out,
          rw block run,
          next-Adds a k.params start start (held_term holds seed word) j more
              (λ d low. rw missing (sym (bit_xor-zero (a.get start d)))) adds,
        )
  ]
