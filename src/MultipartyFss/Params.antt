-- ===== src/MultipartyFss/Params.antt =====
-- multiparty_fss/params.py: the checked parameters and the dimensions of the grid.
use native.Mathlib.Nat.{mod-add-div', le-div_iff_mul-le}
use fed_kg_rag_secure_impl.Prelude.{
  ℕ, zero, suc, ◌+◌, ◌-◌, ◌*◌, ◌/◌, ◌%◌, ◌^◌, ◌≤◌, ◌<◌, Option, none, some, not, max, ltb, leb,
  ==→eq, ltb→lt, ◌==◌, ◌&&◌, if◌then◌else◌, arith, one-le-pow, Bool-cases, inl, inr,
}
use fed_kg_rag_secure_impl.Prelude.Bits.{bit_length}
use fed_kg_rag_secure_impl.Python.{Result, ok, parameter_error, ◌>>◌, raise_if}

abbrev pub seed_bytes : ℕ
seed_bytes = 16

abbrev pub output_bits : ℕ
output_bits = 64

abbrev pub min_parties : ℕ
min_parties = 3

abbrev pub max_parties : ℕ
max_parties = 10

abbrev pub min_domain_bits : ℕ
min_domain_bits = 1

abbrev pub max_domain_bits : ℕ
max_domain_bits = 30

unfoldable pub honest_majority_threshold : ℕ → ℕ
honest_majority_threshold party_count = (party_count - 1) / 2

-- `math.isqrt`: the largest number whose square is not above.
unfoldable pub isqrt : ℕ → ℕ
isqrt zero = 0
isqrt (suc n) =
    let root = isqrt n in if leb ((root + 1) * (root + 1)) (suc n) then root + 1 else root

unfoldable pub ceil_sqrt : ℕ → ℕ
unfolding isqrt
ceil_sqrt value = if isqrt value * isqrt value == value then isqrt value else isqrt value + 1

pub record MpDpfParams : Type 0 where
  pub domain_bits : ℕ
  pub party_count : ℕ
  pub threshold : ℕ

-- `MpDpfParams(...)` with its `__post_init__`.
unfoldable pub new_params : ℕ → ℕ → ℕ → Result MpDpfParams
new_params domain_bits party_count threshold = do
  raise_if (not (leb min_domain_bits domain_bits && leb domain_bits max_domain_bits))
      parameter_error
  raise_if (not (leb min_parties party_count && leb party_count max_parties)) parameter_error
  raise_if (not (leb 1 threshold && leb threshold (party_count - 1))) parameter_error
  ok (record { domain_bits = domain_bits; party_count = party_count; threshold = threshold })

unfoldable pub create : ℕ → ℕ → Option ℕ → Result MpDpfParams
unfolding new_params honest_majority_threshold
create domain_bits party_count none =
    new_params domain_bits party_count (honest_majority_threshold party_count)
create domain_bits party_count (some threshold) = new_params domain_bits party_count threshold

unfoldable pub domain_size : MpDpfParams → ℕ
domain_size p = 2 ^ p.domain_bits

unfoldable pub seeds_per_row : MpDpfParams → ℕ
seeds_per_row p = 2 ^ (p.party_count - 1)

unfoldable pub mu : MpDpfParams → ℕ
mu p = ceil_sqrt (2 ^ (p.domain_bits + p.party_count - 1))

-- `-(-domain_size // mu)` rounds the quotient up.
unfoldable pub nu : MpDpfParams → ℕ
nu p = (domain_size p + mu p - 1) / mu p

unfoldable pub sigma_bytes : MpDpfParams → ℕ
sigma_bytes p = nu p * seeds_per_row p * seed_bytes

unfoldable pub cw_bytes : MpDpfParams → ℕ
cw_bytes p = seeds_per_row p * mu p * (output_bits / 8)

-- `divmod(x, mu)` in range.
unfoldable pub cell : MpDpfParams → ℕ → Result (ℕ × ℕ)
cell p x = do raise_if (not (ltb x (domain_size p))) parameter_error; ok (x / mu p, x % mu p)

unfoldable pub domain_bits_for_universe : ℕ → Result ℕ
unfolding bit_length
domain_bits_for_universe universe_size = do
  raise_if (ltb universe_size 1) parameter_error
  let bits = bit_length (max (universe_size - 1) 1)
  raise_if (ltb max_domain_bits bits) parameter_error
  ok bits

-- The square root, rounded down.
record IsFloorSqrt (n root : ℕ) : Type 0 where
  below : root * root ≤ n
  above : n < (root + 1) * (root + 1)

isqrt-IsFloorSqrt : (n : ℕ) → IsFloorSqrt n (isqrt n)
unfolding isqrt
isqrt-IsFloorSqrt zero = record { below = omega arith; above = omega arith }
isqrt-IsFloorSqrt (suc n) = ground (arith, isqrt-IsFloorSqrt n)

-- The least number whose square is not below.
pub record IsCeilSqrt (n root : ℕ) : Type 0 where
  pub enough : n ≤ root * root
  pub least : (k : ℕ) → n ≤ k * k → root ≤ k

sq-lt : (a b : ℕ) → a < b → a * a < b * b
sq-lt a b h = grind arith

sq-le : (a b : ℕ) → a ≤ b → a * a ≤ b * b
sq-le a b h = grind arith

le-of_sq : (a b : ℕ) → a * a ≤ b * b → a ≤ b
le-of_sq a b h = elim (Bool-cases (ltb b a)) [
  | inl above ↦ absurd (omega (arith, sq-lt b a (ltb→lt b a above)))
  | inr below ↦ ground arith
]

lt-of_sq : (a b : ℕ) → a * a < b * b → a < b
lt-of_sq a b h = elim (Bool-cases (ltb a b)) [
  | inl below ↦ ltb→lt a b below
  | inr above ↦ let le : b ≤ a = ground arith in absurd (omega (arith, sq-le b a le))
]

positive-of_sq : (a : ℕ) → 1 ≤ a * a → 0 < a
positive-of_sq zero h = absurd (omega arith)
positive-of_sq (suc a) h = omega arith

-- For every number, `_ceil_sqrt` returns the least number whose square is at least that number.
pub ceil_sqrt-IsCeilSqrt : (n : ℕ) → IsCeilSqrt n (ceil_sqrt n)
unfolding ceil_sqrt
ceil_sqrt-IsCeilSqrt n = elim (Bool-cases (isqrt n * isqrt n == n)) [
  | inl exact ↦
      let square = ==→eq (isqrt n * isqrt n) n exact in
      rw exact (record { enough = omega arith; least = λ k h. le-of_sq (isqrt n) k (omega arith) })
  | inr between ↦
      let root = isqrt-IsFloorSqrt n in
      let strict : isqrt n * isqrt n < n = ground arith in
      rw between (record {
        enough = omega arith;
        least = λ k h. omega (arith, lt-of_sq (isqrt n) k (omega arith));
      })
]

pub mu-positive : (p : MpDpfParams) → 0 < mu p
unfolding mu
mu-positive p =
    let c = ceil_sqrt-IsCeilSqrt (2 ^ (p.domain_bits + p.party_count - 1)) in
    let some_point = one-le-pow (p.domain_bits + p.party_count - 1) 2 (omega arith) in
    positive-of_sq _ (omega (arith, c.enough))

-- A point of the domain has a row of the grid.
pub div-lt-nu : (p : MpDpfParams) (x : ℕ) → x < domain_size p → x / mu p < nu p
unfolding nu
div-lt-nu p x h =
    let low : suc (x / mu p) * mu p ≤ domain_size p + mu p - 1 =
      omega (arith, mod-add-div' x (mu p)) in
    (le-div_iff_mul-le (mu-positive p)).1 low
