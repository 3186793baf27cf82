-- ===== src/MultipartyFss/Correct.antt =====
-- The output shares of all parties combine to the point function.
use Prim.Native.String.{String}
use native.Mathlib.Nat.{mod-lt, mod-add-div'}
use fed_kg_rag_secure_impl.Prelude.{
  ℕ, zero, suc, ◌+◌, ◌*◌, ◌/◌, ◌%◌, ◌^◌, ◌<◌, ◌≤◌, ◌≡◌, ◌≢◌, refl, sym, ap, subst, ◌∙◌, Bool, true,
  false, not, Option, List, [], ◌∷◌, map, arith, length, All, get_or, ltb, ◌==◌, ◌&&◌, str_eq,
  lt→ltb, if◌then◌else◌, Bool-cases, inl, inr, bit_xor, ==_refl, ==→eq, ==→ne,
}
use fed_kg_rag_secure_impl.Prelude.Xor.{bit_xor_assoc, bit_xor_self}
use fed_kg_rag_secure_impl.Prelude.XorSum.{
  xor_sum, xor_sum_cong, xor_sum_zero, xor_sum-bit_xor, xor_sum_swap, bit_xor-zero,
}
use fed_kg_rag_secure_impl.Python.{Result, ok, ◌>>=◌}
use fed_kg_rag_secure_impl.Config.{range_from}
use fed_kg_rag_secure_impl.MultipartyFss.Params.{
  MpDpfParams, output_bits, domain_size, seeds_per_row, mu, nu, cell, cw_bytes, mu-positive,
  div-lt-nu,
}
use fed_kg_rag_secure_impl.MultipartyFss.Parity.{party_holds}
use fed_kg_rag_secure_impl.MultipartyFss.Parity.Columns.{IsColumn, parity_bit}
use fed_kg_rag_secure_impl.MultipartyFss.Parity.Cancel.{digit_times, holders-cancel}
use fed_kg_rag_secure_impl.MultipartyFss.Arrays.{WordArrays, Bytes}
use fed_kg_rag_secure_impl.MultipartyFss.KeyShare.{MpDpfKeyShare, is_hex, domain_binding_raw}
use fed_kg_rag_secure_impl.MultipartyFss.Keygen.{resolve_params, correction_words, generate}
use fed_kg_rag_secure_impl.MultipartyFss.Keygen.Blocks.{All-get_or}
use fed_kg_rag_secure_impl.MultipartyFss.Keygen.Words.{
  xor_expansions-Adds, zeros-IsWide, from_zeros,
}
use fed_kg_rag_secure_impl.MultipartyFss.Keygen.Solved.{Solved, correction_words-Solved}
use fed_kg_rag_secure_impl.MultipartyFss.Evaluate.{evaluate, row_vector, combine}
use fed_kg_rag_secure_impl.MultipartyFss.Evaluate.Row.{held_term, row_loop-Adds}
use fed_kg_rag_secure_impl.MultipartyFss.Evaluate.Combining.{numbered, combine-xor_sum}
use fed_kg_rag_secure_impl.MultipartyFss.Shares.{
  IsRandomness, key, AreArrays, sample-AreArrays, full_arrays, key-HoldsRow, party_share-key,
  map_result-range_from,
}

-- `{k.party_index: evaluate(k, point) for k in keys}`
abbrev pub output_shares :
    (a : WordArrays)
    → (MpDpfParams → Bytes → a.Array)
    → ℕ
    → List (MpDpfKeyShare a)
    → Result (List (ℕ × ℕ))
output_shares a G point [] = ok []
output_shares a G point (k ∷ keys) = do
  y ← evaluate a G k point
  rest ← output_shares a G point keys
  ok ((k.party_index, y) ∷ rest)

module _ (a : WordArrays) (G : MpDpfParams → Bytes → a.Array) (params : MpDpfParams)
    (seed : ℕ → ℕ → Bytes) (word : ℕ → a.Array) (shuffle : ℕ → List ℕ → List ℕ)
    (keygen_id domain_binding : String)
    (random : IsRandomness a G params seed word shuffle keygen_id)
    (bound : (not (str_eq domain_binding domain_binding_raw) && not (is_hex 64 domain_binding))
      ≡ false) where
  -- The share of party `i` at entry `d` of a row.
  abbrev share_of : List (List ℕ) → (ℕ → a.Array) → ℕ → ℕ → ℕ → ℕ
  share_of arrays cw row d i = xor_sum 0 (seeds_per_row params) (λ j.
      if party_holds (get_or (get_or arrays row []) j 0) i
      then bit_xor (a.get (cw j) d) (a.get (G params (seed row j)) d)
      else 0)

  row_sum :
      (columns : List ℕ) (p want n : ℕ) (v : ℕ → ℕ)
      → All (IsColumn (2 ^ p) want) columns
      → n ≤ length columns
      → xor_sum 0 p (λ i. xor_sum 0 n (λ j. if party_holds (get_or columns j 0) i then v j else 0))
        ≡ xor_sum 0 n (λ j. digit_times want (v j))
  row_sum columns p want n v all h =
      xor_sum_swap 0 p 0 n (λ i j. if party_holds (get_or columns j 0) i then v j else 0)
      ∙ xor_sum_cong 0 n _ (λ j. digit_times want (v j))
          (λ j low high.
            let c = All-get_or (IsColumn (2 ^ p) want) columns j 0 all (omega arith) in
            holders-cancel (get_or columns j 0) want (v j) p c.0 c.1)

  module _ {gamma : ℕ} (arrays : List (List ℕ)) (target special : a.Array) (rows : List a.Array)
      (r : AreArrays a G params seed word shuffle keygen_id domain_binding random bound gamma
        arrays)
      (s : Solved a params word target special rows) where
    keyed : ℕ → MpDpfKeyShare a
    keyed =
        key a G params seed word shuffle keygen_id domain_binding random bound arrays
          (a.tobytes rows)

    evaluate-share_of :
        (i x : ℕ)
        → x < domain_size params
        → (evaluate a G (keyed i) x ≡ ok (share_of arrays s.row (x / mu params) (x % mu params) i))
          × (share_of arrays s.row (x / mu params) (x % mu params) i < 2 ^ output_bits)
    unfolding keyed evaluate row_vector cell
    evaluate-share_of i x h =
        let row = x / mu params in
        let d = x % mu params in
        let small : d < mu params = mod-lt x (mu-positive params) in
        let holds : ℕ → Bool = λ j. party_holds (get_or (get_or arrays row []) j 0) i in
        let held =
          key-HoldsRow a G params seed word shuffle keygen_id domain_binding random bound arrays
            target special rows r s i row (div-lt-nu params x h) in
        let (out, run, adds) =
          row_loop-Adds a G (keyed i) row holds (seed row) s.row 0 (seeds_per_row params)
            (a.zeros (mu params)) held (zeros-IsWide a params) (omega arith) in
        let value =
          from_zeros a params (held_term a G (keyed i) holds (seed row) s.row) 0
            (seeds_per_row params) d adds small in
        let inside : ltb x (domain_size params) ≡ true = lt→ltb x (domain_size params) h in
        (
          rw (inside, run) (ap ok value),
          subst (λ (t : ℕ). t < 2 ^ output_bits) value
              (a.get-lt out d (subst (λ (t : ℕ). d < t) (sym adds.wide) small)),
        )

    output_shares-numbered :
        (x lo n : ℕ)
        → x < domain_size params
        → output_shares a G x (map keyed (range_from lo n))
          ≡ ok (numbered (share_of arrays s.row (x / mu params) (x % mu params)) lo n)
    unfolding keyed
    output_shares-numbered x lo zero h = refl
    output_shares-numbered x lo (suc n) h =
        rw ((evaluate-share_of lo x h).0, output_shares-numbered x (lo + 1) n h) refl

    module _
        (special_sum : (d : ℕ)
          → d < mu params
          → a.get special d
            ≡ xor_sum 0 (seeds_per_row params) (λ j. a.get (G params (seed gamma j)) d)) where
      special_row :
          (d : ℕ)
          → d < mu params
          → xor_sum 0
              (seeds_per_row params)
              (λ j. bit_xor (a.get (s.row j) d) (a.get (G params (seed gamma j)) d))
            ≡ a.get target d
      special_row d small =
          xor_sum-bit_xor 0 (seeds_per_row params) (λ j. a.get (s.row j) d)
            (λ j. a.get (G params (seed gamma j)) d)
          ∙ ap
              (λ (t : ℕ).
                bit_xor t
                  (xor_sum 0 (seeds_per_row params) (λ j. a.get (G params (seed gamma j)) d)))
              (s.sum d small ∙ ap (bit_xor (a.get target d)) (special_sum d small))
          ∙ bit_xor_assoc _ _ _
          ∙ ap (bit_xor (a.get target d)) (bit_xor_self _)
          ∙ bit_xor-zero (a.get target d)

      -- The parties' shares of one entry sum to the target in the special row, and to zero elsewhere.
      total :
          (row d : ℕ)
          → row < nu params
          → d < mu params
          → xor_sum 0 params.party_count (share_of arrays s.row row d)
            ≡ (if row == gamma then a.get target d else 0)
      total row d low small =
          let array = r.array row low in
          let wide =
            All-get_or (λ (columns : List ℕ). length columns ≡ seeds_per_row params) arrays row []
              (full_arrays a G params seed word shuffle keygen_id domain_binding random bound arrays
                r)
              (omega (arith, r.count)) in
          row_sum (get_or arrays row []) params.party_count (parity_bit (row == gamma))
            (seeds_per_row params)
            (λ j. bit_xor (a.get (s.row j) d) (a.get (G params (seed row j)) d)) array.column
            (omega (arith, wide))
          ∙ (elim (Bool-cases (row == gamma)) [
            | inl here ↦
                let same : row ≡ gamma = ==→eq row gamma here in
                rw here (
                  ap
                    (λ (t : ℕ).
                      xor_sum 0 (seeds_per_row params)
                        (λ j. bit_xor (a.get (s.row j) d) (a.get (G params (seed t j)) d)))
                    same
                  ∙ special_row d small)
            | inr other ↦ rw other (xor_sum_zero 0 (seeds_per_row params))
          ])

  -- The target vector: `beta` at the column of `alpha`.
  target_of : ℕ → ℕ → a.Array
  target_of delta beta = a.put (a.zeros (mu params)) delta beta

  get-target_of :
      (delta beta d : ℕ)
      → delta < mu params
      → d < mu params
      → beta < 2 ^ output_bits
      → a.get (target_of delta beta) d ≡ (if d == delta then beta else 0)
  unfolding target_of
  get-target_of delta beta d h k word_fits =
      let inside : delta < a.size (a.zeros (mu params)) =
        omega (arith, a.size-zeros (mu params), h) in
      elim (Bool-cases (d == delta)) [
        | inl here ↦
            let same : d ≡ delta = ==→eq d delta here in
            rw here (
              ap (a.get (a.put (a.zeros (mu params)) delta beta)) same
              ∙ a.get-put_self (a.zeros (mu params)) delta beta inside word_fits)
        | inr other ↦ rw other (
            a.get-put_ne (a.zeros (mu params)) delta d beta (λ e. ==→ne d delta other (sym e))
            ∙ a.get-zeros (mu params) d k)
      ]

  -- A point is `alpha` when it has its row and its column.
  same_cell :
      (x alpha v : ℕ)
      → (if x / mu params == alpha / mu params
          then if x % mu params == alpha % mu params then v else 0
          else 0)
        ≡ (if x == alpha then v else 0)
  same_cell x alpha v = elim (Bool-cases (x == alpha)) [
    | inl here ↦
        let same : x ≡ alpha = ==→eq x alpha here in
        rw (same, ==_refl (alpha / mu params), ==_refl (alpha % mu params), ==_refl alpha)
    | inr other ↦
        let apart : x ≢ alpha = ==→ne x alpha other in
        elim (Bool-cases (x / mu params == alpha / mu params)) [
          | inl row ↦ elim (Bool-cases (x % mu params == alpha % mu params)) [
            | inl column ↦ absurd (
                apart (
                  omega (
                    arith,
                    mod-add-div' x (mu params),
                    mod-add-div' alpha (mu params),
                    ==→eq (x % mu params) (alpha % mu params) column,
                    ap (λ (t : ℕ). t * mu params) (==→eq (x / mu params) (alpha / mu params) row),
                  )))
            | inr column ↦ rw (row, column, other)
          ]
          | inr row ↦ rw (row, other)
        ]
  ]

  nbytes-rows :
      {target special : a.Array} (rows : List a.Array)
      → Solved a params word target special rows
      → a.nbytes (a.tobytes rows) ≡ cw_bytes params
  unfolding cw_bytes
  nbytes-rows rows s =
      a.nbytes-tobytes rows (mu params) s.wide ∙ ap (λ (t : ℕ). t * mu params * 8) s.count

  -- For parameters that `resolve_params` accepts, with at least one party, a point of the domain,
  -- a 64-bit value and a binding and random draws that meet the checks, `generate` returns key
  -- shares, and at every point of the domain the output shares that the parties evaluate combine
  -- to the value at the point and to zero elsewhere.
  pub generate-combine :
      (alpha beta party_count : ℕ) (threshold : Option ℕ) (given : Option MpDpfParams)
      (domain_bits : Option ℕ)
      → resolve_params given party_count threshold domain_bits ≡ ok params
      → 1 ≤ params.party_count
      → alpha < domain_size params
      → beta < 2 ^ output_bits
      → (keys : List (MpDpfKeyShare a)) × (generate a G seed word shuffle keygen_id alpha beta
            party_count threshold given domain_bits domain_binding
          ≡ ok keys)
        × ((x : ℕ)
            → x < domain_size params
            → (output_shares a G x keys >>= λ ys. combine ys params.party_count)
              ≡ ok (if x == alpha then beta else 0))
  unfolding generate cell target_of keyed
  generate-combine alpha beta party_count threshold given domain_bits resolved some_party h k =
      let gamma = alpha / mu params in
      let delta = alpha % mu params in
      let column : delta < mu params = mod-lt alpha (mu-positive params) in
      let (arrays, sampled, r) =
        sample-AreArrays a G params seed word shuffle keygen_id domain_binding random bound gamma
          some_party in
      let target = target_of delta beta in
      let target_wide =
        a.size-put (a.zeros (mu params)) delta beta
          (omega (arith, a.size-zeros (mu params), column))
        ∙ a.size-zeros (mu params) in
      let (special, expanded, adds) =
        xor_expansions-Adds a params G (seed gamma) 0 (seeds_per_row params) (a.zeros (mu params))
          (zeros-IsWide a params) (random.seed_size gamma) (random.expansion_wide gamma) in
      let rows = correction_words a params word target special in
      let s =
        correction_words-Solved a params word target special target_wide adds.wide
          random.word_wide in
      let share =
        key a G params seed word shuffle keygen_id domain_binding random bound arrays
          (a.tobytes rows) in
      let full =
        full_arrays a G params seed word shuffle keygen_id domain_binding random bound arrays r in
      let shared = map_result-range_from _ share 0 params.party_count (λ i low high.
        party_share-key a G params seed word shuffle keygen_id domain_binding random bound arrays
          (a.tobytes rows) i full r.count (nbytes-rows rows s) (omega arith)) in
      let inside : ltb alpha (domain_size params) ≡ true = lt→ltb alpha (domain_size params) h in
      let fits : ltb beta (2 ^ output_bits) ≡ true = lt→ltb beta (2 ^ output_bits) k in
      (
        map share (range_from 0 params.party_count),
        rw (resolved, inside, fits, sampled, expanded) shared,
        λ x low.
            let row = x / mu params in
            let d = x % mu params in
            let small : d < mu params = mod-lt x (mu-positive params) in
            rw (output_shares-numbered arrays target special rows r s x 0 params.party_count low) (
              combine-xor_sum (share_of arrays s.row row d) params.party_count
                (λ i party. (evaluate-share_of arrays target special rows r s i x low).1)
              ∙ ap ok (
                  total arrays target special rows r s
                    (λ e entry.
                      from_zeros a params (λ e j. a.get (G params (seed gamma j)) e) 0
                        (seeds_per_row params) e adds entry)
                    row d (div-lt-nu params x low) small
                  ∙ ap (λ (t : ℕ). if row == gamma then t else 0)
                      (get-target_of delta beta d column small k)
                  ∙ same_cell x alpha beta)),
      )
