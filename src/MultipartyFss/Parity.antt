-- ===== src/MultipartyFss/Parity.antt =====
-- multiparty_fss/parity.py: the columns of a row, one for each seed; party `i` holds the seed of a
-- column when bit `i` of the column is set.
pub mod Columns
pub mod Cancel
use native.Mathlib.Nat.{pow-suc, one-le-pow}
use fed_kg_rag_secure_impl.Prelude.{
  ℕ, zero, suc, ◌+◌, ◌-◌, ◌*◌, ◌/◌, ◌%◌, ◌^◌, ◌≤◌, ◌<◌, ◌≡◌, refl, sym, ap, ◌∙◌, Bool, true, false,
  not, List, [], ◌∷◌, bit_and, bit_xor, arith, ltb, ◌==◌, if◌then◌else◌, Bool-cases, inl, inr, All,
  length, subst,
}
use fed_kg_rag_secure_impl.Prelude.Arith.{div_double}
use fed_kg_rag_secure_impl.Prelude.Bits.{◌>>>◌, bit_and-mask}
use fed_kg_rag_secure_impl.Prelude.Xor.{zero-bit_xor, bit_xor_self}
use fed_kg_rag_secure_impl.Prelude.XorSum.{xor_sum, xor_sum_cong, bit_xor-zero}
use fed_kg_rag_secure_impl.Python.{Result, ok, err, parameter_error, ◌>>=◌, ◌>>◌, raise_if}
use fed_kg_rag_secure_impl.Config.{range_from}

ones_fuel : ℕ → ℕ → ℕ
ones_fuel zero n = 0
ones_fuel (suc fuel) n = n % 2 + ones_fuel fuel (n / 2)

-- `bin(column).count("1")`; the number is fuel enough.
unfoldable pub count_ones : ℕ → ℕ
unfolding ones_fuel
count_ones column = ones_fuel column column

-- The columns whose number of ones has the parity that is wanted.
unfoldable pub columns_of : ℕ → List ℕ → List ℕ
unfolding count_ones
columns_of want [] = []
columns_of want (column ∷ columns) =
    let rest = columns_of want columns in
    if count_ones column % 2 == want then column ∷ rest else rest

unfoldable pub parity_columns : ℕ → Bool → Result (List ℕ)
parity_columns party_count odd = do
  raise_if (ltb party_count 1) parameter_error
  ok (columns_of (if odd then 1 else 0) (range_from 0 (2 ^ party_count)))

unfoldable pub party_holds : ℕ → ℕ → Bool
party_holds column party_index = not (bit_and (column >>> party_index) 1 == 0)
