-- ===== src/MultipartyFss/Keygen/Words.antt =====
-- The sums of the correction words and of the expansions, entry by entry.
use fed_kg_rag_secure_impl.Prelude.{
  ℕ, zero, suc, ◌<◌, ◌≡◌, refl, sym, ap, ◌∙◌, true, arith, length, bit_xor, ◌==◌,
}
use fed_kg_rag_secure_impl.Prelude.Xor.{bit_xor_assoc, zero-bit_xor}
use fed_kg_rag_secure_impl.Prelude.XorSum.{xor_sum, bit_xor-zero}
use fed_kg_rag_secure_impl.Python.{ok}
use fed_kg_rag_secure_impl.MultipartyFss.Params.{MpDpfParams, seed_bytes, mu}
use fed_kg_rag_secure_impl.MultipartyFss.Arrays.{WordArrays, Bytes}
use fed_kg_rag_secure_impl.MultipartyFss.KeyShare.{expand_seed}
use fed_kg_rag_secure_impl.MultipartyFss.Keygen.{xor_expansions, xor_words}

module _ (a : WordArrays) (params : MpDpfParams) where
  -- A vector of one row of the grid.
  abbrev pub IsWide : a.Array → Type 0
  IsWide x = a.size x ≡ mu params

  pub IsWide-xor : (x y : a.Array) → IsWide x → IsWide y → IsWide (a.xor x y)
  IsWide-xor x y h k = a.size-xor x y (h ∙ sym k) ∙ h

  pub get-xor_wide :
      (x y : a.Array) (d : ℕ)
      → IsWide x
      → IsWide y
      → d < mu params
      → a.get (a.xor x y) d ≡ bit_xor (a.get x d) (a.get y d)
  get-xor_wide x y d h k small = a.get-xor x y d (h ∙ sym k) (omega (arith, h))

  -- The vector is wide, and each of its entries is the entry of `start` with a sum.
  pub record Adds (start : a.Array) (term : ℕ → ℕ → ℕ) (j more : ℕ) (out : a.Array) : Type 0 where
    pub wide : IsWide out
    pub entry :
        (d : ℕ) → d < mu params → a.get out d ≡ bit_xor (a.get start d) (xor_sum j more (term d))

  pub start-Adds :
      (start : a.Array) (term : ℕ → ℕ → ℕ) (j : ℕ) → IsWide start → Adds start term j 0 start
  start-Adds start term j h = record {
    wide = h;
    entry = λ d small. sym (bit_xor-zero (a.get start d));
  }

  -- One more term: `next` is `start` with the term.
  pub next-Adds :
      (start next : a.Array) (term : ℕ → ℕ → ℕ) (j more : ℕ) {out : a.Array}
      → ((d : ℕ) → d < mu params → a.get next d ≡ bit_xor (a.get start d) (term d j))
      → Adds next term (suc j) more out
      → Adds start term j (suc more) out
  next-Adds start next term j more step rest = record {
    wide = rest.wide;
    entry = λ d small.
        rest.entry d small
        ∙ ap (λ (t : ℕ). bit_xor t (xor_sum (suc j) more (term d))) (step d small)
        ∙ bit_xor_assoc (a.get start d) (term d j) (xor_sum (suc j) more (term d));
  }

  xor-Adds :
      (start x : a.Array) (term : ℕ → ℕ → ℕ) (j more : ℕ) {out : a.Array}
      → IsWide start
      → IsWide x
      → ((d : ℕ) → d < mu params → a.get x d ≡ term d j)
      → Adds (a.xor start x) term (suc j) more out
      → Adds start term j (suc more) out
  xor-Adds start x term j more h k first =
      next-Adds start (a.xor start x) term j more
        (λ d small. get-xor_wide start x d h k small ∙ ap (bit_xor (a.get start d)) (first d small))

  pub xor_words-Adds :
      (word : ℕ → a.Array) (j more : ℕ) (start : a.Array)
      → IsWide start
      → ((k : ℕ) → IsWide (word k))
      → Adds start (λ d k. a.get (word k) d) j more (xor_words a word j more start)
  unfolding xor_words
  xor_words-Adds word j zero start h k = start-Adds start (λ d k. a.get (word k) d) j h
  xor_words-Adds word j (suc more) start h k =
      xor-Adds start (word j) (λ d k. a.get (word k) d) j more h (k j) (λ d small. refl)
        (xor_words-Adds word (suc j) more (a.xor start (word j)) (IsWide-xor start (word j) h (k j))
          k)

  pub xor_expansions-Adds :
      (G : MpDpfParams → Bytes → a.Array) (seed : ℕ → Bytes) (j more : ℕ) (start : a.Array)
      → IsWide start
      → ((k : ℕ) → length (seed k) ≡ seed_bytes)
      → ((k : ℕ) → IsWide (G params (seed k)))
      → (out : a.Array) × (xor_expansions a G params seed j more start ≡ ok out)
        × Adds start (λ d k. a.get (G params (seed k)) d) j more out
  unfolding xor_expansions expand_seed
  xor_expansions-Adds G seed j zero start h k l =
      (start, refl, start-Adds start (λ d k. a.get (G params (seed k)) d) j h)
  xor_expansions-Adds G seed j (suc more) start h k l =
      let full : (length (seed j) == seed_bytes) ≡ true = ground (arith, k j) in
      let x = G params (seed j) in
      let (out, run, adds) =
        xor_expansions-Adds G seed (suc j) more (a.xor start x) (IsWide-xor start x h (l j)) k l in
      (
        out,
        rw full run,
        xor-Adds start x (λ d k. a.get (G params (seed k)) d) j more h (l j) (λ d small. refl) adds,
      )

  pub zeros-IsWide : IsWide (a.zeros (mu params))
  zeros-IsWide = a.size-zeros (mu params)

  pub from_zeros :
      (term : ℕ → ℕ → ℕ) (j more : ℕ) {out : a.Array} (d : ℕ)
      → Adds (a.zeros (mu params)) term j more out
      → d < mu params
      → a.get out d ≡ xor_sum j more (term d)
  from_zeros term j more d adds small =
      adds.entry d small
      ∙ ap (λ (t : ℕ). bit_xor t (xor_sum j more (term d))) (a.get-zeros (mu params) d small)
      ∙ zero-bit_xor (xor_sum j more (term d))
