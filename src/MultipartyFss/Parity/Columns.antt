-- ===== src/MultipartyFss/Parity/Columns.antt =====
-- The columns of a parity: half of all columns, each of them in range.
use native.Mathlib.Nat.{pow-suc}
use fed_kg_rag_secure_impl.Prelude.{
  ℕ, zero, suc, ◌+◌, ◌-◌, ◌/◌, ◌%◌, ◌^◌, ◌≤◌, ◌<◌, ◌≡◌, refl, sym, ap, ◌∙◌, Bool, true, false, List,
  arith, ltb, ◌==◌, if◌then◌else◌, Bool-cases, inl, inr, All, length,
}
use fed_kg_rag_secure_impl.Python.{ok}
use fed_kg_rag_secure_impl.Config.{range_from}
use fed_kg_rag_secure_impl.MultipartyFss.Parity.{count_ones, ones_fuel, columns_of, parity_columns}

ones_fuel-zero : (n : ℕ) → ones_fuel n 0 ≡ 0
unfolding ones_fuel
ones_fuel-zero zero = refl
ones_fuel-zero (suc n) = omega (arith, ones_fuel-zero n)

same_ones : (m n a : ℕ) → a ≤ m → a ≤ n → ones_fuel m a ≡ ones_fuel n a
unfolding ones_fuel
same_ones zero n zero h k = sym (ones_fuel-zero n)
same_ones zero n (suc a) h k = absurd (omega arith)
same_ones (suc m) n zero h k = omega (arith, ones_fuel-zero m, ones_fuel-zero n)
same_ones (suc m) zero (suc a) h k = absurd (omega arith)
same_ones (suc m) (suc n) (suc a) h k =
    ap (λ (t : ℕ). suc a % 2 + t) (same_ones m n (suc a / 2) (omega arith) (omega arith))

-- The ones of a number are its last digit and the ones of the rest.
pub count_ones_step : (a : ℕ) → count_ones a ≡ a % 2 + count_ones (a / 2)
unfolding count_ones ones_fuel
count_ones_step zero = refl
count_ones_step (suc a) =
    ap (λ (t : ℕ). suc a % 2 + t) (same_ones a (suc a / 2) (suc a / 2) (omega arith) (omega arith))

pub count_ones-zero : count_ones 0 ≡ 0
unfolding count_ones ones_fuel
count_ones-zero = refl

-- Of `2 * m` and `2 * m + 1` one has an even and one has an odd number of ones.
pair_parity : (m : ℕ) → (count_ones (m + m) % 2 + count_ones (m + m + 1) % 2) ≡ 1
pair_parity m =
    let low : (m + m) / 2 ≡ m = omega arith in
    let high : (m + m + 1) / 2 ≡ m = omega arith in
    omega (
      arith,
      count_ones_step (m + m),
      count_ones_step (m + m + 1),
      ap count_ones low,
      ap count_ones high,
    )

length-columns_of :
    (want m k : ℕ) → want < 2 → length (columns_of want (range_from (m + m) (k + k))) ≡ k
unfolding columns_of
length-columns_of want m zero h = refl
length-columns_of want m (suc k) h =
    let two : suc k + suc k ≡ suc (suc (k + k)) = omega arith in
    let next : m + m + 1 + 1 ≡ suc m + suc m = omega arith in
    let ih = length-columns_of want (suc m) k h in
    let pair = pair_parity m in rw (two, next) (ground (arith, ih, pair))

-- A column of the wanted parity that is below the number of columns.
abbrev pub IsColumn : ℕ → ℕ → ℕ → Type 0
IsColumn bound want column = (column < bound) × (count_ones column % 2 ≡ want)

All-columns_of :
    (bound want lo n : ℕ)
    → lo + n ≤ bound
    → All (IsColumn bound want) (columns_of want (range_from lo n))
unfolding columns_of
All-columns_of bound want lo zero h = tt
All-columns_of bound want lo (suc n) h =
    let ih = All-columns_of bound want (lo + 1) n (omega arith) in
    elim (Bool-cases (count_ones lo % 2 == want)) [
      | inl yes_column ↦ rw yes_column ((omega arith, ground arith), ih)
      | inr no_column ↦ rw no_column ih
    ]

pub record IsParityArray (party_count want : ℕ) (columns : List ℕ) : Type 0 where
  pub count : length columns ≡ 2 ^ (party_count - 1)
  pub column : All (IsColumn (2 ^ party_count) want) columns

abbrev pub parity_bit : Bool → ℕ
parity_bit odd = if odd then 1 else 0

parity_bit-lt : (odd : Bool) → parity_bit odd < 2
parity_bit-lt true = omega arith
parity_bit-lt false = omega arith

pub parity_columns-IsParityArray :
    (party_count : ℕ) (odd : Bool)
    → 1 ≤ party_count
    → (columns : List ℕ) × (parity_columns party_count odd ≡ ok columns)
      × IsParityArray party_count (parity_bit odd) columns
unfolding parity_columns
parity_columns-IsParityArray zero odd h = absurd (omega arith)
parity_columns-IsParityArray (suc n) odd h =
    let halves : 2 ^ suc n ≡ 2 ^ n + 2 ^ n = omega (arith, pow-suc 2 n) in
    let less : suc n - 1 ≡ n = omega arith in
    let some_party : ltb (suc n) 1 ≡ false = ground arith in
    (
      columns_of (parity_bit odd) (range_from 0 (2 ^ suc n)),
      rw some_party,
      record {
        count =
            ap (λ (t : ℕ). length (columns_of (parity_bit odd) (range_from 0 t))) halves
            ∙ length-columns_of (parity_bit odd) 0 (2 ^ n) (parity_bit-lt odd)
            ∙ ap (λ (t : ℕ). 2 ^ t) (sym less);
        column = All-columns_of (2 ^ suc n) (parity_bit odd) 0 (2 ^ suc n) (omega arith);
      },
    )
