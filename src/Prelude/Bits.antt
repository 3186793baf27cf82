-- ===== src/Prelude/Bits.antt =====
-- Python's `<<`, `>>`, `|`, `&` on non-negative integers and `int.bit_length`, with the arithmetic
-- that they stand for when the operands occupy disjoint bit ranges.
use Prim.Native.Nat.{
  ℕ, zero, suc, ◌+◌, ◌-◌, ◌*◌, ◌/◌, ◌%◌, ◌^◌, ◌≤◌, ◌<◌, min, max, bit_and, bit_or, digits,
  bit_and-bitwise, bit_or-bitwise,
}
use mathlib.Core.Path.{◌≡◌, refl, sym, ap, subst, ◌∙◌}
use mathlib.Core.WellFounded
use native.Mathlib.Nat.{pow-suc, one-le-pow, mul_comm}
use native.Mathlib.Omega.{arith}
use fed_kg_rag_secure_impl.Prelude.Order.{lt_wf}
use fed_kg_rag_secure_impl.Prelude.Arith.{mod_double}

infixl 75 ◌<<<◌ ◌>>>◌
abbrev pub ◌<<<◌ : ℕ → ℕ → ℕ
x <<< k = x * 2 ^ k

abbrev pub ◌>>>◌ : ℕ → ℕ → ℕ
x >>> k = x / 2 ^ k

-- The recursion behind a bitwise operation gives the same number on any fuel that is enough.
module _ (z : ℕ → ℕ) (f : ℕ → ℕ → ℕ) where
  pub same_digits : (m n a b : ℕ) → a ≤ m → a ≤ n → digits z f m a b ≡ digits z f n a b
  same_digits zero zero a b p q = refl
  same_digits zero (suc n) zero b p q = refl
  same_digits zero (suc n) (suc a) b p q = absurd (omega arith)
  same_digits (suc m) zero zero b p q = refl
  same_digits (suc m) zero (suc a) b p q = absurd (omega arith)
  same_digits (suc m) (suc n) zero b p q = refl
  same_digits (suc m) (suc n) (suc a) b p q =
      omega (arith, same_digits m n (suc a / 2) (b / 2) (omega arith) (omega arith))

pub bit_or_low : (a b : ℕ) → bit_or a b ≡ bit_or (a / 2) (b / 2) * 2 + max (a % 2) (b % 2)
bit_or_low zero b = omega (arith, bit_or-bitwise 0 b, bit_or-bitwise 0 (b / 2))
bit_or_low (suc a) b = omega (
  arith,
  bit_or-bitwise (suc a) b,
  bit_or-bitwise (suc a / 2) (b / 2),
  same_digits (λ y. y) max a (suc a / 2) (suc a / 2) (b / 2) (omega arith) (omega arith),
)

pub bit_and_low : (a b : ℕ) → bit_and a b ≡ bit_and (a / 2) (b / 2) * 2 + min (a % 2) (b % 2)
bit_and_low zero b = omega (arith, bit_and-bitwise 0 b, bit_and-bitwise 0 (b / 2))
bit_and_low (suc a) b = omega (
  arith,
  bit_and-bitwise (suc a) b,
  bit_and-bitwise (suc a / 2) (b / 2),
  same_digits (λ y. 0) min a (suc a / 2) (suc a / 2) (b / 2) (omega arith) (omega arith),
)

bit_or-zero : (a : ℕ) → bit_or a 0 ≡ a
bit_or-zero a = WellFounded.induction lt_wf {C = λ n. bit_or n 0 ≡ n} a (elim [
  | zero ↦ λ ih. refl
  | suc n ↦ λ ih. omega (arith, bit_or_low (suc n) 0, ih (suc n / 2) (omega arith))
])

bit_or_comm : (a b : ℕ) → bit_or a b ≡ bit_or b a
bit_or_comm a = WellFounded.induction lt_wf {C = λ n. (b : ℕ) → bit_or n b ≡ bit_or b n} a (elim [
  | zero ↦ λ ih b. bit_or-bitwise 0 b ∙ sym (bit_or-zero b)
  | suc n ↦ λ ih b.
      omega
        (arith, bit_or_low (suc n) b, bit_or_low b (suc n), ih (suc n / 2) (omega arith) (b / 2))
])

zero-bit_or : (b : ℕ) → bit_or 0 b ≡ b
zero-bit_or b = bit_or-bitwise 0 b

bit_and-zero : (a : ℕ) → bit_and a 0 ≡ 0
bit_and-zero a = WellFounded.induction lt_wf {C = λ n. bit_and n 0 ≡ 0} a (elim [
  | zero ↦ λ ih. refl
  | suc n ↦ λ ih. omega (arith, bit_and_low (suc n) 0, ih (suc n / 2) (omega arith))
])

half-shift : (k v : ℕ) → v * 2 ^ suc k / 2 ≡ v * 2 ^ k
half-shift k v = omega (arith, ap (λ (t : ℕ). v * t) (pow-suc 2 k))

even-shift : (k v : ℕ) → v * 2 ^ suc k % 2 ≡ 0
even-shift k v = omega (arith, ap (λ (t : ℕ). v * t) (pow-suc 2 k))

-- `r | (v <<< k)` is a sum when `r` has at most `k` bits.
pub bit_or-shift : (k r v : ℕ) → r < 2 ^ k → bit_or r (v <<< k) ≡ r + v * 2 ^ k
bit_or-shift zero r v h = let e : r ≡ 0 = omega arith in rw (e, zero-bit_or) (omega arith)
bit_or-shift (suc k) r v h = omega (
  arith,
  bit_or_low r (v * 2 ^ suc k),
  half-shift k v,
  even-shift k v,
  ap (λ (t : ℕ). bit_or (r / 2) t) (half-shift k v),
  bit_or-shift k (r / 2) v (omega (arith, pow-suc 2 k)),
)

half_mask : (k : ℕ) → ((1 <<< suc k) - 1) / 2 ≡ (1 <<< k) - 1
half_mask k = omega (arith, pow-suc 2 k, one-le-pow k 2)

odd_mask : (k : ℕ) → ((1 <<< suc k) - 1) % 2 ≡ 1
odd_mask k = omega (arith, pow-suc 2 k, one-le-pow k 2)

-- A mask of `k` ones keeps the remainder by `2 ** k`.
pub bit_and-mask : (k a : ℕ) → bit_and a ((1 <<< k) - 1) ≡ a % 2 ^ k
bit_and-mask zero a = bit_and-zero a ∙ omega arith
bit_and-mask (suc k) a =
    bit_and_low a ((1 <<< suc k) - 1)
    ∙ omega (
      arith,
      odd_mask k,
      ap (λ (t : ℕ). bit_and (a / 2) t) (half_mask k),
      bit_and-mask k (a / 2),
      mod_double a (2 ^ k) (one-le-pow k 2 (omega arith)),
      ap (λ (t : ℕ). a % t) (pow-suc 2 k ∙ mul_comm (2 ^ k) 2),
    )

-- `n.bit_length()`
unfoldable pub bit_length_fuel : ℕ → ℕ → ℕ
bit_length_fuel zero n = 0
bit_length_fuel (suc f) zero = 0
bit_length_fuel (suc f) (suc n) = suc (bit_length_fuel f (suc n / 2))

unfoldable pub bit_length : ℕ → ℕ
unfolding bit_length_fuel
bit_length n = bit_length_fuel n n

lt-bit_length_fuel : (f n : ℕ) → n ≤ f → n < 2 ^ bit_length_fuel f n
unfolding bit_length_fuel
lt-bit_length_fuel zero n h = omega arith
lt-bit_length_fuel (suc f) zero h = omega arith
lt-bit_length_fuel (suc f) (suc n) h = omega (
  arith,
  pow-suc 2 (bit_length_fuel f (suc n / 2)),
  lt-bit_length_fuel f (suc n / 2) (omega arith),
)

-- A number fits its bit length.
pub lt-bit_length : (n : ℕ) → n < 2 ^ bit_length n
unfolding bit_length
lt-bit_length n = lt-bit_length_fuel n n (omega arith)

bit_length_fuel-zero : (f : ℕ) → bit_length_fuel f 0 ≡ 0
unfolding bit_length_fuel
bit_length_fuel-zero zero = refl
bit_length_fuel-zero (suc f) = refl

-- The highest bit of a positive number.
top_bit_fuel : (f n : ℕ) → n < f → (k : ℕ) × (bit_length_fuel f (suc n) ≡ suc k) × (2 ^ k ≤ suc n)
unfolding bit_length_fuel
top_bit_fuel zero n h = absurd (omega arith)
top_bit_fuel (suc f) n h = halved (suc n / 2) refl (λ m small. top_bit_fuel f m small)
  where
    halved :
        (m : ℕ)
        → suc n / 2 ≡ m
        → ((r : ℕ) → r < f → (k : ℕ) × (bit_length_fuel f (suc r) ≡ suc k) × (2 ^ k ≤ suc r))
        → (k : ℕ) × (suc (bit_length_fuel f (suc n / 2)) ≡ suc k) × (2 ^ k ≤ suc n)
    halved zero e ih = (0, ap suc (ap (bit_length_fuel f) e ∙ bit_length_fuel-zero f), omega arith)
    halved (suc m) e ih =
        let (k, len, small) = ih m (omega arith) in
        (suc k, ap suc (ap (bit_length_fuel f) e ∙ len), omega (arith, pow-suc 2 k))

-- A positive number reaches the highest power of two of its bit length.
pub pow-le_bit_length : (n : ℕ) → 0 < n → 2 ^ (bit_length n - 1) ≤ n
unfolding bit_length
pow-le_bit_length zero h = absurd (omega arith)
pow-le_bit_length (suc n) h =
    let (k, len, small) = top_bit_fuel (suc n) n (omega arith) in
    subst (λ (t : ℕ). 2 ^ t ≤ suc n) (omega (arith, len)) small

-- `(v << k) | r`
pub shift-bit_or : (k r v : ℕ) → r < 2 ^ k → bit_or (v <<< k) r ≡ r + v * 2 ^ k
shift-bit_or k r v h = bit_or_comm (v <<< k) r ∙ bit_or-shift k r v h
