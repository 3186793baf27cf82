-- ===== src/MultipartyFss/Keygen/Solved.antt =====
-- The correction words sum to the target vector and the expansions of the special row.
use native.Mathlib.Nat.{zero-add}
use fed_kg_rag_secure_impl.Prelude.{
  ℕ, suc, ◌-◌, ◌<◌, ◌≡◌, sym, ap, ap₂, ◌∙◌, some, false, List, [], ◌∷◌, ◌++◌, map, arith, length,
  length-append, one-le-pow, get_elem?, All, All-append, bit_xor, Bool-cases, inl, inr, ltb→lt,
  lt→ltb, ltb, if◌then◌else◌, get_elem?-append_left, get_elem?-append_right,
}
use fed_kg_rag_secure_impl.Prelude.Xor.{bit_xor_assoc, bit_xor_comm, bit_xor_self}
use fed_kg_rag_secure_impl.Prelude.XorSum.{xor_sum, xor_sum_cong, xor_sum_last, bit_xor-zero}
use fed_kg_rag_secure_impl.Config.{range_from}
use fed_kg_rag_secure_impl.MultipartyFss.Params.{MpDpfParams, seeds_per_row, mu}
use fed_kg_rag_secure_impl.MultipartyFss.Arrays.{WordArrays}
use fed_kg_rag_secure_impl.MultipartyFss.Keygen.{xor_words, correction_words}
use fed_kg_rag_secure_impl.MultipartyFss.Keygen.Words.{
  IsWide, IsWide-xor, get-xor_wide, Adds, xor_words-Adds, zeros-IsWide, from_zeros,
}
use fed_kg_rag_secure_impl.MultipartyFss.Keygen.Blocks.{
  get_elem?-map-range_from, length-map-range_from, All-map-range_from,
}

seeds_per_row-positive : (p : MpDpfParams) → 0 < seeds_per_row p
unfolding seeds_per_row
seeds_per_row-positive p = one-le-pow (p.party_count - 1) 2 (omega arith)

module _ (a : WordArrays) (params : MpDpfParams) where
  -- Correction word `j`: a random one, or the last, which is solved for.
  abbrev pub word_at : (ℕ → a.Array) → a.Array → ℕ → ℕ → a.Array
  word_at word last n j = if ltb j n then word j else last

  abbrev solved : (ℕ → a.Array) → a.Array → a.Array → a.Array
  solved word target special =
      a.xor (a.xor target special)
        (xor_words a word 0 (seeds_per_row params - 1) (a.zeros (mu params)))

  pub record Solved (word : ℕ → a.Array) (target special : a.Array) (rows : List a.Array)
      : Type 0 where
    pub count : length rows ≡ seeds_per_row params
    pub wide : All (IsWide a params) rows
    pub row : ℕ → a.Array
    pub row_wide : (j : ℕ) → IsWide a params (row j)
    pub found : (j : ℕ) → j < seeds_per_row params → get_elem? rows j ≡ some (row j)
    pub sum :
        (d : ℕ)
        → d < mu params
        → xor_sum 0 (seeds_per_row params) (λ j. a.get (row j) d)
          ≡ bit_xor (a.get target d) (a.get special d)

  word_at_below :
      (word : ℕ → a.Array) (last : a.Array) (n j : ℕ) → j < n → word_at word last n j ≡ word j
  word_at_below word last n j h = rw (lt→ltb j n h)

  word_at_last : (word : ℕ → a.Array) (last : a.Array) (n : ℕ) → word_at word last n n ≡ last
  word_at_last word last n = let equal : ltb n n ≡ false = ground arith in rw equal

  get_elem?-words :
      (word : ℕ → a.Array) (last : a.Array) (n j : ℕ)
      → j < suc n
      → get_elem? (map word (range_from 0 n) ++ last ∷ []) j ≡ some (word_at word last n j)
  get_elem?-words word last n j h =
      let wide = length-map-range_from word 0 n in
      elim (Bool-cases (ltb j n)) [
        | inl below ↦
            get_elem?-append_left (map word (range_from 0 n)) (last ∷ []) j
              (omega (arith, wide, ltb→lt j n below))
            ∙ get_elem?-map-range_from word 0 n j (ltb→lt j n below)
            ∙ ap some (ap word (zero-add j) ∙ sym (word_at_below word last n j (ltb→lt j n below)))
        | inr behind ↦
            let end : j ≡ n = ground arith in
            let start : j - length (map word (range_from 0 n)) ≡ 0 = omega (arith, wide, end) in
            get_elem?-append_right (map word (range_from 0 n)) (last ∷ []) j
              (omega (arith, wide, end))
            ∙ ap (get_elem? (last ∷ [])) start
            ∙ ap some (sym (ap (word_at word last n) end ∙ word_at_last word last n))
      ]

  word_at-IsWide :
      (word : ℕ → a.Array) (last : a.Array) (n j : ℕ)
      → ((k : ℕ) → IsWide a params (word k))
      → IsWide a params last
      → IsWide a params (word_at word last n j)
  word_at-IsWide word last n j h k = elim (Bool-cases (ltb j n)) [
    | inl below ↦ rw below (h j)
    | inr behind ↦ rw behind k
  ]

  cancel : (t p : ℕ) → bit_xor p (bit_xor t p) ≡ t
  cancel t p =
      bit_xor_comm p (bit_xor t p)
      ∙ bit_xor_assoc t p p
      ∙ ap (bit_xor t) (bit_xor_self p)
      ∙ bit_xor-zero t

  module _ (word : ℕ → a.Array) (target special : a.Array) (h : IsWide a params target)
      (k : IsWide a params special) (l : (k : ℕ) → IsWide a params (word k)) where
    random :
        Adds a params
          (a.zeros (mu params))
          (λ d k. a.get (word k) d)
          0
          (seeds_per_row params - 1)
          (xor_words a word 0 (seeds_per_row params - 1) (a.zeros (mu params)))
    random =
        xor_words-Adds a params word 0 (seeds_per_row params - 1) (a.zeros (mu params))
          (zeros-IsWide a params) l

    solved-IsWide : IsWide a params (solved word target special)
    solved-IsWide =
        IsWide-xor a params (a.xor target special) _ (IsWide-xor a params target special h k)
          random.wide

    get-solved :
        (d : ℕ)
        → d < mu params
        → a.get (solved word target special) d
          ≡ bit_xor
              (bit_xor (a.get target d) (a.get special d))
              (xor_sum 0 (seeds_per_row params - 1) (λ j. a.get (word j) d))
    get-solved d small =
        get-xor_wide a params (a.xor target special) _ d (IsWide-xor a params target special h k)
          random.wide small
        ∙ ap₂ bit_xor (get-xor_wide a params target special d h k small) (
            from_zeros a params (λ d k. a.get (word k) d) 0 (seeds_per_row params - 1) d random
              small)

    sum_words :
        (n d : ℕ)
        → seeds_per_row params ≡ suc n
        → d < mu params
        → xor_sum 0 (suc n) (λ j. a.get (word_at word (solved word target special) n j) d)
          ≡ bit_xor (a.get target d) (a.get special d)
    sum_words n d some_seed small =
        let last = solved word target special in
        let less : seeds_per_row params - 1 ≡ n = omega (arith, some_seed) in
        xor_sum_last 0 n (λ j. a.get (word_at word last n j) d)
        ∙ ap₂ bit_xor
            (xor_sum_cong 0 n (λ j. a.get (word_at word last n j) d) (λ j. a.get (word j) d)
              (λ j low high.
                ap (λ (x : a.Array). a.get x d) (word_at_below word last n j (omega arith))))
            (ap (λ (j : ℕ). a.get (word_at word last n j) d) (zero-add n)
              ∙ ap (λ (x : a.Array). a.get x d) (word_at_last word last n)
              ∙ get-solved d small
              ∙ ap
                  (λ (t : ℕ).
                    bit_xor (bit_xor (a.get target d) (a.get special d))
                      (xor_sum 0 t (λ j. a.get (word j) d)))
                  less)
        ∙ cancel (bit_xor (a.get target d) (a.get special d)) (xor_sum 0 n (λ j. a.get (word j) d))

    pub correction_words-Solved :
        Solved word target special (correction_words a params word target special)
    unfolding correction_words
    correction_words-Solved =
        let n = seeds_per_row params - 1 in
        let some_seed : seeds_per_row params ≡ suc n =
          omega (arith, seeds_per_row-positive params) in
        let last = solved word target special in
        record {
          count = omega (
            arith,
            some_seed,
            length-append (map word (range_from 0 n)) (last ∷ []),
            length-map-range_from word 0 n,
          );
          wide =
              All-append (IsWide a params) (map word (range_from 0 n)) (last ∷ [])
                (All-map-range_from (IsWide a params) word 0 n l) (solved-IsWide, tt);
          row = word_at word last n;
          row_wide = λ j. word_at-IsWide word last n j l solved-IsWide;
          found = λ j small. get_elem?-words word last n j (omega (arith, some_seed));
          sum = λ d small.
              ap (λ (t : ℕ). xor_sum 0 t (λ j. a.get (word_at word last n j) d)) some_seed
              ∙ sum_words n d some_seed small;
        }
