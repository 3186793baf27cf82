-- ===== src/Prelude/Arith.antt =====
-- Quotients and remainders by a variable, and Python's `%` and ceiling division.
use Prim.Native.Nat.{ℕ, zero, suc, ◌+◌, ◌-◌, ◌*◌, ◌/◌, ◌%◌, ◌^◌, ◌≤◌, ◌<◌}
use mathlib.Core.Path.{◌≡◌, sym, ap, ◌∙◌}
use native.Mathlib.Nat.{
  div-eq_of_lt-le, mod-eq-sub-div-mul, mod-add-div', mod-lt, mod-eq_of_lt, mod-eq-sub-mod,
  mod-add-mod, add-mul-mod_self_right, pow-suc, add-zero, add-suc, mul-le-mul_right,
}
use native.Mathlib.Omega.{arith}

pub div_unique : (q r m : ℕ) → r < m → (q * m + r) / m ≡ q
div_unique q r m h = div-eq_of_lt-le m (omega arith) (omega arith)

pub mod_unique : (q r m : ℕ) → r < m → (q * m + r) % m ≡ r
mod_unique q r m h =
    omega (arith, mod-eq-sub-div-mul (q * m + r) m, ap (λ (t : ℕ). t * m) (div_unique q r m h))

-- The lowest binary digit split off a remainder.
pub mod_double : (a m : ℕ) → 0 < m → a % (2 * m) ≡ a / 2 % m * 2 + a % 2
mod_double a m h =
    ap (λ (t : ℕ). t % (2 * m)) split
    ∙ mod_unique (a / 2 / m) (a / 2 % m * 2 + a % 2) (2 * m) (omega (arith, mod-lt (a / 2) h))
  where
    split : a ≡ a / 2 / m * (2 * m) + (a / 2 % m * 2 + a % 2)
    split = omega (arith, mod-add-div' (a / 2) m)

pub div_double : (a m : ℕ) → 0 < m → a / (2 * m) ≡ a / 2 / m
div_double a m h =
    ap (λ (t : ℕ). t / (2 * m)) split
    ∙ div_unique (a / 2 / m) (a / 2 % m * 2 + a % 2) (2 * m) (omega (arith, mod-lt (a / 2) h))
  where
    split : a ≡ a / 2 / m * (2 * m) + (a / 2 % m * 2 + a % 2)
    split = omega (arith, mod-add-div' (a / 2) m)

-- `(v - a) % m` undoes `(a + …) % m`: what two operands below `m` leave.
pub add-sub_mod : (v w m : ℕ) → v < m → w ≤ m → ((v + m - w) % m + w) % m ≡ v
add-sub_mod v w m p q = grind (arith, mod-eq_of_lt, mod-eq-sub-mod)

-- `-(-n // d)`
abbrev pub ceil_div : ℕ → ℕ → ℕ
ceil_div n d = (n + (d - 1)) / d

pub mod_cancel : (x y c m : ℕ) → 0 < m → (x + c) % m ≡ (y + c) % m → x % m ≡ y % m
mod_cancel x y c zero pos h = elim pos [ ]
mod_cancel x y c (suc k) pos h = sym (wrapped x) ∙ ap (λ (t : ℕ). (t + c * k) % suc k) h ∙ wrapped y
  where
    wrapped : (z : ℕ) → ((z + c) % suc k + c * k) % suc k ≡ z % suc k
    wrapped z =
        mod-add-mod (z + c) (suc k) (c * k)
        ∙ ap (λ (t : ℕ). t % suc k) (omega arith)
        ∙ add-mul-mod_self_right z c (suc k)

pub pow-add : (a b : ℕ) → 2 ^ (a + b) ≡ 2 ^ a * 2 ^ b
pow-add a zero = ap (λ (t : ℕ). 2 ^ t) (add-zero a) ∙ omega arith
pow-add a (suc b) =
    ap (λ (t : ℕ). 2 ^ t) (add-suc a b)
    ∙ pow-suc 2 (a + b)
    ∙ omega (arith, pow-add a b, ap (λ (t : ℕ). 2 ^ a * t) (pow-suc 2 b))

-- Two digits, of `a` and of `b` bits, make a number of `a + b` bits.
pub digits-lt : (a b x y : ℕ) → x < 2 ^ a → y < 2 ^ b → x + y * 2 ^ a < 2 ^ (a + b)
digits-lt a b x y h k =
    omega (arith, pow-add a b, mul-le-mul_right {m = suc y} {n = 2 ^ b} (2 ^ a) k)

-- A number with the digit `r` below `q`, in base `n`.
pub digit-lt : (q r n m : ℕ) → q < m → r < n → q * n + r < m * n
digit-lt q r n m h k = omega (arith, mul-le-mul_right n h)

pub zero-mod : (m : ℕ) → 0 < m → 0 % m ≡ 0
zero-mod m h = mod-eq_of_lt h

pub zero-div : (m : ℕ) → 0 < m → 0 / m ≡ 0
zero-div m h =
    let start : 0 ≡ 0 * m + 0 = omega arith in ap (λ (t : ℕ). t / m) start ∙ div_unique 0 0 m h
