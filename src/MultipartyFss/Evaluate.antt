-- ===== src/MultipartyFss/Evaluate.antt =====
-- multiparty_fss/evaluate.py: the output share of one party, at a point and at many.
-- multiparty_fss/combine.py: the output shares of all parties combined.
pub mod Row
pub mod Rows
pub mod Batch
pub mod Combining
use fed_kg_rag_secure_impl.Prelude.{
  ℕ, zero, suc, ◌+◌, ◌-◌, ◌*◌, ◌/◌, ◌%◌, ◌^◌, ◌==◌, ◌&&◌, Bool, true, false, not, Option, none,
  some, List, [], ◌∷◌, ◌++◌, map, ltb, bit_xor, length, replicate, take, if◌then◌else◌,
}
use fed_kg_rag_secure_impl.Python.{
  Result, ok, err, parameter_error, combine_error, ◌>>=◌, ◌>>◌, raise_if, map_result, lookup,
  insert, nat_key, Json, as_int, in_range,
}
use fed_kg_rag_secure_impl.Python.Sequence.{item, get_item, keys_of, same_names, any_of, sort_by}
use fed_kg_rag_secure_impl.Config.{range_from}
use fed_kg_rag_secure_impl.MultipartyFss.Params.{
  MpDpfParams, output_bits, domain_size, seeds_per_row, mu, cell,
}
use fed_kg_rag_secure_impl.MultipartyFss.Arrays.{WordArrays, Bytes}
use fed_kg_rag_secure_impl.MultipartyFss.KeyShare.{MpDpfKeyShare, seed_block, cw_row, expand_seed}

-- `block.any()`
abbrev pub any_byte : Bytes → Bool
any_byte block = any_of (λ byte. not (byte == 0)) block

-- The check of one value of a batch: an integer, no bool, in the domain.
abbrev pub checked_point : MpDpfParams → Json → Result ℕ
checked_point p value = elim (as_int value) [
  | none ↦ err parameter_error
  | some z ↦ elim (in_range z (domain_size p)) [
    | none ↦ err parameter_error
    | some point ↦ ok point
  ]
]

module _ (a : WordArrays) (G : MpDpfParams → Bytes → a.Array) where
  open a use {Array, Buffer, zeros, xor, get}

  -- The loop over the columns of a row; an all-zero block is a seed that is not held.
  unfoldable pub row_loop : MpDpfKeyShare a → ℕ → ℕ → ℕ → Array → Result Array
  row_loop k row j zero accumulator = ok accumulator
  row_loop k row j (suc more) accumulator = do
    next ←
        if any_byte (seed_block a k row j)
        then (do
          expanded ← expand_seed a G k.params (seed_block a k row j)
          ok (xor (xor accumulator (cw_row a k j)) expanded))
        else ok accumulator
    row_loop k row (suc j) more next

  unfoldable pub row_vector : MpDpfKeyShare a → ℕ → Result Array
  row_vector k row = row_loop k row 0 (seeds_per_row k.params) (zeros (mu k.params))

  unfoldable pub evaluate : MpDpfKeyShare a → ℕ → Result ℕ
  evaluate k point = do
    (gamma, delta) ← cell k.params point
    vector ← row_vector k gamma
    ok (get vector delta)

  -- `{x // params.mu for x in point_list}`, in the order of the points.
  abbrev add_row : ℕ → List ℕ → List ℕ
  add_row row rows = if any_of (λ r. r == row) rows then rows else rows ++ row ∷ []

  abbrev rows_of : ℕ → List ℕ → List ℕ → List ℕ
  rows_of width [] rows = rows
  rows_of width (x ∷ points) rows = rows_of width points (add_row (x / width) rows)

  abbrev cached_row : MpDpfKeyShare a → ℕ → Result (ℕ × Array)
  cached_row k row = do vector ← row_vector k row; ok (row, vector)

  abbrev from_cache : MpDpfParams → List (ℕ × Array) → ℕ → Result ℕ
  from_cache p cache x = do vector ← item (x / mu p) cache; ok (get vector (x % mu p))

  -- The values come unchecked.
  unfoldable pub evaluate_many : MpDpfKeyShare a → List Json → Result (List ℕ)
  evaluate_many k values = do
    points ← map_result (checked_point k.params) values
    cache ←
        map_result (cached_row k) (sort_by (λ r s. not (ltb s r)) (rows_of (mu k.params) points []))
    map_result (from_cache k.params cache) points

-- The check of a share value.
unfoldable pub check_share_value : ℕ → Result ℕ
check_share_value value = do raise_if (ltb (2 ^ output_bits - 1) value) combine_error; ok value

unfoldable pub combine_loop : List (ℕ × ℕ) → ℕ → ℕ → ℕ → Result ℕ
unfolding check_share_value
combine_loop shares index zero result = ok result
combine_loop shares index (suc more) result = do
  share ← item index shares
  value ← check_share_value share
  combine_loop shares (suc index) more (bit_xor result value)

unfoldable pub combine : List (ℕ × ℕ) → ℕ → Result ℕ
unfolding combine_loop
combine output_shares party_count = do
  raise_if (not (same_names (keys_of output_shares) (range_from 0 party_count))) combine_error
  combine_loop output_shares 0 party_count 0
