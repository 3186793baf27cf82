-- ===== src/MultipartyFss/Shares.antt =====
-- What `generate` returns: a key share for each party, which holds the seeds of its columns.
use mathlib.Core.List.{Permᴰ}
use native.Mathlib.Nat.{zero-add}
use Prim.Native.String.{String}
use fed_kg_rag_secure_impl.Prelude.{
  ℕ, zero, suc, ◌+◌, ◌*◌, ◌^◌, ◌<◌, ◌≤◌, ◌≡◌, refl, sym, ap, subst, ◌∙◌, Bool, true, false, not,
  List, [], ◌∷◌, map, arith, length, All, All-append, get_or, ltb, ◌==◌, ◌&&◌, str_eq, lt→ltb,
  length-replicate, Bool-cases, inl, inr,
}
use fed_kg_rag_secure_impl.Python.{Result, ok, map_result}
use fed_kg_rag_secure_impl.Config.{range_from}
use fed_kg_rag_secure_impl.MultipartyFss.Params.{
  MpDpfParams, seed_bytes, seeds_per_row, mu, nu, sigma_bytes, cw_bytes,
}
use fed_kg_rag_secure_impl.MultipartyFss.Parity.{party_holds}
use fed_kg_rag_secure_impl.MultipartyFss.Parity.Columns.{
  IsParityArray, IsColumn, parity_bit, parity_columns-IsParityArray,
}
use fed_kg_rag_secure_impl.MultipartyFss.Arrays.{WordArrays, Bytes}
use fed_kg_rag_secure_impl.MultipartyFss.KeyShare.{
  MpDpfKeyShare, new_key_share, seed_block, cw_row, is_hex, domain_binding_raw,
}
use fed_kg_rag_secure_impl.MultipartyFss.Keygen.{sample_parity_array, join, party_share}
use fed_kg_rag_secure_impl.MultipartyFss.Keygen.Blocks.{
  grid, grid_block, party_blocks-ok, length-grid, get_elem?-grid, take-drop-join, length-join,
  All-map-range_from,
}
use fed_kg_rag_secure_impl.MultipartyFss.Keygen.Words.{IsWide}
use fed_kg_rag_secure_impl.MultipartyFss.Keygen.Solved.{Solved}
use fed_kg_rag_secure_impl.MultipartyFss.Evaluate.{any_byte}
use fed_kg_rag_secure_impl.MultipartyFss.Evaluate.Row.{HoldsRow}

length-Permᴰ : {xs ys : List ℕ} → Permᴰ xs ys → length xs ≡ length ys
length-Permᴰ Permᴰ.nil = refl
length-Permᴰ (Permᴰ.cons x p) = ap suc (length-Permᴰ p)
length-Permᴰ (Permᴰ.swap x y) = refl
length-Permᴰ (Permᴰ.trans p q) = length-Permᴰ p ∙ length-Permᴰ q

All-Permᴰ : (P : ℕ → Type 0) {xs ys : List ℕ} → Permᴰ xs ys → All P xs → All P ys
All-Permᴰ P Permᴰ.nil h = h
All-Permᴰ P (Permᴰ.cons e p) h = (subst P e h.0, All-Permᴰ P p h.1)
All-Permᴰ P (Permᴰ.swap e f) h = (subst P f h.1.0, (subst P e h.0, h.1.1))
All-Permᴰ P (Permᴰ.trans p q) h = All-Permᴰ P q (All-Permᴰ P p h)

-- A loop over a range that returns on each number.
pub map_result-range_from {ℓ} :
    {B : Type ℓ} (f : ℕ → Result B) (g : ℕ → B) (lo n : ℕ)
    → ((i : ℕ) → lo ≤ i → i < lo + n → f i ≡ ok (g i))
    → map_result f (range_from lo n) ≡ ok (map g (range_from lo n))
map_result-range_from f g lo zero h = refl
map_result-range_from f g lo (suc n) h =
    let here = h lo (omega arith) (omega arith) in
    let rest =
      map_result-range_from f g (lo + 1) n (λ i low high. h i (omega arith) (omega arith)) in
    rw (here, rest) refl

-- The same with a property of each result.
record Collected (f : ℕ → Result (List ℕ)) (P : ℕ → List ℕ → Type 0) (lo n : ℕ) : Type 0 where
  results : List (List ℕ)
  run : map_result f (range_from lo n) ≡ ok results
  count : length results ≡ n
  each : (k : ℕ) → k < n → P (lo + k) (get_or results k [])

collect :
    (f : ℕ → Result (List ℕ)) (P : ℕ → List ℕ → Type 0) (lo n : ℕ)
    → ((i : ℕ) → (y : List ℕ) × (f i ≡ ok y) × P i y)
    → Collected f P lo n
collect f P lo zero h = record {
  results = [];
  run = refl;
  count = refl;
  each = λ k small. absurd (omega arith);
}
collect f P lo (suc n) h =
    let first = h lo in
    let rest = collect f P (lo + 1) n h in
    record {
      results = first.0 ∷ rest.results;
      run = rw (first.1, rest.run) refl;
      count = ap suc rest.count;
      each = each_of first.0 rest.results first.2 rest.each;
    }
  where
    each_of :
        (y : List ℕ) (ys : List (List ℕ))
        → P lo y
        → ((k : ℕ) → k < n → P (lo + 1 + k) (get_or ys k []))
        → (k : ℕ) → k < suc n
        → P (lo + k) (get_or (y ∷ ys) k [])
    each_of y ys p q zero small =
        let start : lo ≡ lo + 0 = omega arith in subst (λ (t : ℕ). P t y) start p
    each_of y ys p q (suc k) small =
        let there : lo + 1 + k ≡ lo + suc k = omega arith in
        subst (λ (t : ℕ). P t (get_or ys k [])) there (q k (omega arith))

sample_parity_array-IsParityArray :
    (shuffle : List ℕ → List ℕ) (p : ℕ) (odd : Bool)
    → ((xs : List ℕ) → Permᴰ xs (shuffle xs))
    → 1 ≤ p
    → (columns : List ℕ) × (sample_parity_array shuffle p odd ≡ ok columns)
      × IsParityArray p (parity_bit odd) columns
unfolding sample_parity_array
sample_parity_array-IsParityArray shuffle p odd h k =
    let (columns, run, array) = parity_columns-IsParityArray p odd k in
    (
      shuffle columns,
      rw run,
      record {
        count = sym (length-Permᴰ (h columns)) ∙ array.count;
        column = All-Permᴰ (IsColumn (2 ^ p) (parity_bit odd)) (h columns) array.column;
      },
    )

All-of_each :
    (P : List ℕ → Type 0) (xs : List (List ℕ))
    → ((k : ℕ) → k < length xs → P (get_or xs k []))
    → All P xs
All-of_each P [] h = tt
All-of_each P (x ∷ xs) h =
    (h 0 (omega arith), All-of_each P xs (λ k small. h (suc k) (omega arith)))

-- What the random generator and the expansion of a seed promise.
pub record IsRandomness (a : WordArrays) (G : MpDpfParams → Bytes → a.Array) (params : MpDpfParams)
    (seed : ℕ → ℕ → Bytes) (word : ℕ → a.Array) (shuffle : ℕ → List ℕ → List ℕ) (keygen_id : String)
    : Type 0 where
  pub seed_size : (row j : ℕ) → length (seed row j) ≡ seed_bytes
  pub seed_set : (row j : ℕ) → any_byte (seed row j) ≡ true
  pub word_wide : (j : ℕ) → IsWide a params (word j)
  pub expansion_wide : (row j : ℕ) → IsWide a params (G params (seed row j))
  pub shuffled : (row : ℕ) (xs : List ℕ) → Permᴰ xs (shuffle row xs)
  pub id_hex : is_hex 32 keygen_id ≡ true

module _ (a : WordArrays) (G : MpDpfParams → Bytes → a.Array) (params : MpDpfParams)
    (seed : ℕ → ℕ → Bytes) (word : ℕ → a.Array) (shuffle : ℕ → List ℕ → List ℕ)
    (keygen_id domain_binding : String)
    (random : IsRandomness a G params seed word shuffle keygen_id)
    (bound : (not (str_eq domain_binding domain_binding_raw) && not (is_hex 64 domain_binding))
      ≡ false) where
  -- The key share of party `i`.
  abbrev pub key : List (List ℕ) → a.Buffer → ℕ → MpDpfKeyShare a
  key arrays cw i = record {
    params = params;
    party_index = i;
    keygen_id = keygen_id;
    domain_binding = domain_binding;
    sigma = join (grid arrays seed (seeds_per_row params) i 0 (nu params));
    correction_words = cw;
  }

  block_size :
      (arrays : List (List ℕ)) (i row j : ℕ) → length (grid_block arrays seed i row j) ≡ seed_bytes
  block_size arrays i row j =
      elim (Bool-cases (party_holds (get_or (get_or arrays row []) j 0) i)) [
        | inl held ↦ rw held (random.seed_size row j)
        | inr missing ↦ rw missing (length-replicate {A = ℕ} seed_bytes 0)
      ]

  All-grid :
      (arrays : List (List ℕ)) (i row more : ℕ)
      → All
          (λ (b : Bytes). length b ≡ seed_bytes)
          (grid arrays seed (seeds_per_row params) i row more)
  All-grid arrays i row zero = tt
  All-grid arrays i row (suc more) =
      All-append (λ (b : Bytes). length b ≡ seed_bytes) _ _
        (All-map-range_from (λ (b : Bytes). length b ≡ seed_bytes) (grid_block arrays seed i row) 0
          (seeds_per_row params) (λ j. block_size arrays i row j))
        (All-grid arrays i (row + 1) more)

  sigma_size :
      (arrays : List (List ℕ)) (i : ℕ)
      → length (join (grid arrays seed (seeds_per_row params) i 0 (nu params))) ≡ sigma_bytes params
  unfolding sigma_bytes
  sigma_size arrays i =
      length-join seed_bytes (grid arrays seed (seeds_per_row params) i 0 (nu params))
        (All-grid arrays i 0 (nu params))
      ∙ ap (λ (t : ℕ). t * seed_bytes)
          (length-grid arrays seed (seeds_per_row params) i 0 (nu params))

  pub party_share-key :
      (arrays : List (List ℕ)) (cw : a.Buffer) (i : ℕ)
      → All (λ (columns : List ℕ). length columns ≡ seeds_per_row params) arrays
      → length arrays ≡ nu params
      → a.nbytes cw ≡ cw_bytes params
      → i < params.party_count
      → party_share a params keygen_id domain_binding arrays seed cw i ≡ ok (key arrays cw i)
  unfolding party_share new_key_share
  party_share-key arrays cw i full count words small =
      let blocks =
        party_blocks-ok arrays seed (seeds_per_row params) i 0 (nu params) full (omega arith) in
      let party : ltb i params.party_count ≡ true = lt→ltb i params.party_count small in
      let size : (length (join (grid arrays seed (seeds_per_row params) i 0 (nu params)))
            == sigma_bytes params)
          ≡ true =
        ground (arith, sigma_size arrays i) in
      let wide : (a.nbytes cw == cw_bytes params) ≡ true = ground (arith, words) in
      rw (blocks, party, random.id_hex, bound, size, wide) refl

  -- The arrays that `generate` samples.
  pub record AreArrays (gamma : ℕ) (arrays : List (List ℕ)) : Type 0 where
    pub count : length arrays ≡ nu params
    pub array :
        (row : ℕ)
        → row < nu params
        → IsParityArray params.party_count (parity_bit (row == gamma)) (get_or arrays row [])

  pub sample-AreArrays :
      (gamma : ℕ)
      → 1 ≤ params.party_count
      → (arrays : List (List ℕ)) × (map_result
            (λ row. sample_parity_array (shuffle row) params.party_count (row == gamma))
            (range_from 0 (nu params))
          ≡ ok arrays)
        × AreArrays gamma arrays
  sample-AreArrays gamma h =
      let c =
        collect (λ row. sample_parity_array (shuffle row) params.party_count (row == gamma))
          (λ row. IsParityArray params.party_count (parity_bit (row == gamma))) 0 (nu params)
          (λ row.
            sample_parity_array-IsParityArray (shuffle row) params.party_count (row == gamma)
              (random.shuffled row) h) in
      (
        c.results,
        c.run,
        record {
          count = c.count;
          array = λ row small.
              subst
                (λ (t : ℕ).
                  IsParityArray params.party_count (parity_bit (t == gamma))
                    (get_or c.results row []))
                (zero-add row) (c.each row small);
        },
      )

  pub full_arrays :
      {gamma : ℕ} (arrays : List (List ℕ))
      → AreArrays gamma arrays
      → All (λ (columns : List ℕ). length columns ≡ seeds_per_row params) arrays
  unfolding seeds_per_row
  full_arrays arrays r =
      All-of_each (λ (columns : List ℕ). length columns ≡ seeds_per_row params) arrays
        (λ row small. (r.array row (omega (arith, r.count))).count)

  -- What the key share of party `i` holds of a row.
  pub key-HoldsRow :
      {gamma : ℕ} (arrays : List (List ℕ)) (target special : a.Array) (rows : List a.Array)
      → AreArrays gamma arrays
      → (s : Solved a params word target special rows) → (i row : ℕ) → row < nu params
      → HoldsRow a G
          (key arrays (a.tobytes rows) i)
          row
          (λ j. party_holds (get_or (get_or arrays row []) j 0) i)
          (seed row)
          s.row
  unfolding seed_block cw_row
  key-HoldsRow arrays target special rows r s i row small = record {
    block = λ j low.
        a.block_lem (join (grid arrays seed (seeds_per_row params) i 0 (nu params)))
          (seeds_per_row params) seed_bytes row j
        ∙ take-drop-join seed_bytes (grid arrays seed (seeds_per_row params) i 0 (nu params))
            (row * seeds_per_row params + j) (All-grid arrays i 0 (nu params))
            (get_elem?-grid arrays seed (seeds_per_row params) i 0 (nu params) row j small low)
        ∙ ap (λ (t : ℕ). grid_block arrays seed i t j) (zero-add row);
    cw = λ j low.
        ap (λ (t : ℕ). a.matrix_row (a.tobytes rows) t (mu params) j) (sym s.count)
        ∙ a.matrix_row-tobytes rows (mu params) j s.wide (s.found j low);
    seed_size = random.seed_size row;
    seed_set = random.seed_set row;
    word_wide = s.row_wide;
    expansion_wide = random.expansion_wide row;
  }
