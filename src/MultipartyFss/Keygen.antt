-- ===== src/MultipartyFss/Keygen.antt =====
-- multiparty_fss/keygen.py: `generate`. What the system's random generator returns is an argument:
-- `seed row j` of `_random_seed`, `word j` of a random correction word, `shuffle row` of `shuffle`,
-- and `keygen_id` of `token_hex`. The loop of `_random_seed` is not modelled.
pub mod Blocks
pub mod Words
pub mod Solved
use Prim.Native.String.{String}
use fed_kg_rag_secure_impl.Prelude.{
  ℕ, zero, suc, ◌+◌, ◌-◌, ◌^◌, ◌==◌, ◌&&◌, Bool, true, false, not, Option, none, some, List, [],
  ◌∷◌, ◌++◌, map, ltb, replicate, if◌then◌else◌,
}
use fed_kg_rag_secure_impl.Python.{
  Result, ok, err, parameter_error, ◌>>=◌, ◌>>◌, raise_if, map_result,
}
use fed_kg_rag_secure_impl.Python.Sequence.{get_item}
use fed_kg_rag_secure_impl.Config.{range_from}
use fed_kg_rag_secure_impl.MultipartyFss.Params.{
  MpDpfParams, create, seed_bytes, output_bits, domain_size, seeds_per_row, mu, nu, cell,
}
use fed_kg_rag_secure_impl.MultipartyFss.Parity.{parity_columns, party_holds}
use fed_kg_rag_secure_impl.MultipartyFss.Arrays.{WordArrays, Bytes}
use fed_kg_rag_secure_impl.MultipartyFss.KeyShare.{MpDpfKeyShare, new_key_share, expand_seed}

abbrev differs : Option ℕ → ℕ → Bool
differs none n = false
differs (some m) n = not (m == n)

-- The parameters of a call with `params` or with `domain_bits`.
unfoldable pub resolve_params : Option MpDpfParams → ℕ → Option ℕ → Option ℕ → Result MpDpfParams
resolve_params none party_count threshold none = err parameter_error
resolve_params none party_count threshold (some domain_bits) =
    create domain_bits party_count threshold
resolve_params (some params) party_count threshold domain_bits = do
  raise_if (differs domain_bits params.domain_bits) parameter_error
  raise_if (not (party_count == params.party_count)) parameter_error
  raise_if (differs threshold params.threshold) parameter_error
  ok params

unfoldable pub sample_parity_array : (List ℕ → List ℕ) → ℕ → Bool → Result (List ℕ)
sample_parity_array shuffle party_count odd = do
  columns ← parity_columns party_count odd
  ok (shuffle columns)

abbrev pub zero_block : Bytes
zero_block = replicate seed_bytes 0

-- The blocks of one party in one row, from column `j` on.
unfoldable pub row_blocks : List ℕ → (ℕ → Bytes) → ℕ → ℕ → ℕ → Result (List Bytes)
row_blocks columns seed i j zero = ok []
row_blocks columns seed i j (suc more) = do
  column ← get_item columns j
  rest ← row_blocks columns seed i (j + 1) more
  ok ((if party_holds column i then seed j else zero_block) ∷ rest)

-- The blocks of one party, from a row on.
unfoldable pub party_blocks : List (List ℕ) → (ℕ → ℕ → Bytes) → ℕ → ℕ → ℕ → ℕ → Result (List Bytes)
party_blocks arrays seed per_row i row zero = ok []
party_blocks arrays seed per_row i row (suc more) = do
  columns ← get_item arrays row
  blocks ← row_blocks columns (seed row) i 0 per_row
  rest ← party_blocks arrays seed per_row i (row + 1) more
  ok (blocks ++ rest)

-- `b"".join(blocks)`
abbrev pub join : List Bytes → Bytes
join [] = []
join (block ∷ blocks) = block ++ join blocks

module _ (a : WordArrays) where
  open a use {Array, Buffer, zeros, xor, put, tobytes}

  -- The loop that adds the expansions of the seeds of a row.
  unfoldable pub xor_expansions :
      (MpDpfParams → Bytes → Array) → MpDpfParams → (ℕ → Bytes) → ℕ → ℕ → Array → Result Array
  xor_expansions G params seed j zero special = ok special
  xor_expansions G params seed j (suc more) special = do
    expanded ← expand_seed a G params (seed j)
    xor_expansions G params seed (suc j) more (xor special expanded)

  -- The loop that adds the random correction words.
  unfoldable pub xor_words : (ℕ → Array) → ℕ → ℕ → Array → Array
  xor_words word j zero partial = partial
  xor_words word j (suc more) partial = xor_words word (suc j) more (xor partial (word j))

  -- The random words and the one that is solved for.
  unfoldable pub correction_words : MpDpfParams → (ℕ → Array) → Array → Array → List Array
  correction_words params word target special =
      map word (range_from 0 (seeds_per_row params - 1))
      ++ xor (xor target special) (xor_words word 0 (seeds_per_row params - 1) (zeros (mu params)))
        ∷ []

  unfoldable pub party_share :
      MpDpfParams
      → String
      → String
      → List (List ℕ)
      → (ℕ → ℕ → Bytes)
      → Buffer
      → ℕ
      → Result (MpDpfKeyShare a)
  party_share params keygen_id domain_binding arrays seed cw i = do
    blocks ← party_blocks arrays seed (seeds_per_row params) i 0 (nu params)
    new_key_share a params i keygen_id domain_binding (join blocks) cw

  unfoldable pub generate :
      (MpDpfParams → Bytes → Array)
      → (ℕ → ℕ → Bytes)
      → (ℕ → Array)
      → (ℕ → List ℕ → List ℕ)
      → String
      → ℕ
      → ℕ
      → ℕ
      → Option ℕ
      → Option MpDpfParams
      → Option ℕ
      → String
      → Result (List (MpDpfKeyShare a))
  generate G seed word shuffle keygen_id alpha beta party_count threshold given domain_bits
        domain_binding =
      do
        params ← resolve_params given party_count threshold domain_bits
        raise_if (not (ltb alpha (domain_size params))) parameter_error
        raise_if (not (ltb beta (2 ^ output_bits))) parameter_error
        (gamma, delta) ← cell params alpha
        arrays ←
            map_result (λ row. sample_parity_array (shuffle row) params.party_count (row == gamma))
              (range_from 0 (nu params))
        let target = put (zeros (mu params)) delta beta
        special ← xor_expansions G params (seed gamma) 0 (seeds_per_row params) (zeros (mu params))
        map_result
            (party_share params keygen_id domain_binding arrays seed
              (tobytes (correction_words params word target special)))
            (range_from 0 params.party_count)
