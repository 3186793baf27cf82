-- ===== src/MultipartyFss/Parity/Cancel.antt =====
-- What all parties hold of a column: a value that an even number of them hold cancels, and one that
-- an odd number hold is left.
use native.Mathlib.Nat.{div-div-eq-div-mul}
use fed_kg_rag_secure_impl.Prelude.{
  ℕ, zero, suc, ◌+◌, ◌*◌, ◌/◌, ◌%◌, ◌^◌, ◌<◌, ◌≡◌, refl, sym, ap, ◌∙◌, Bool, true, false, bit_and,
  bit_xor, arith, ◌==◌, if◌then◌else◌, pow-suc, not,
}
use fed_kg_rag_secure_impl.Prelude.Bits.{bit_and-mask}
use fed_kg_rag_secure_impl.Prelude.Xor.{zero-bit_xor, bit_xor_self}
use fed_kg_rag_secure_impl.Prelude.XorSum.{xor_sum, xor_sum_cong, bit_xor-zero}
use fed_kg_rag_secure_impl.MultipartyFss.Parity.{count_ones, party_holds}
use fed_kg_rag_secure_impl.MultipartyFss.Parity.Columns.{count_ones_step, count_ones-zero}

-- The value if the digit is set.
abbrev pub digit_times : ℕ → ℕ → ℕ
digit_times digit v = if digit == 0 then 0 else v

two_digits :
    (x y v : ℕ)
    → x < 2
    → y < 2
    → bit_xor (digit_times x v) (digit_times y v) ≡ digit_times ((x + y) % 2) v
two_digits zero zero v h k = zero-bit_xor 0
two_digits zero (suc zero) v h k = zero-bit_xor v
two_digits (suc zero) zero v h k = bit_xor-zero v
two_digits (suc zero) (suc zero) v h k = bit_xor_self v
two_digits zero (suc (suc y)) v h k = absurd (omega arith)
two_digits (suc zero) (suc (suc y)) v h k = absurd (omega arith)
two_digits (suc (suc x)) y v h k = absurd (omega arith)

digit_times-bit_xor :
    (a b v : ℕ)
    → bit_xor (digit_times (a % 2) v) (digit_times (b % 2) v) ≡ digit_times ((a + b) % 2) v
digit_times-bit_xor a b v =
    let digits : (a % 2 + b % 2) % 2 ≡ (a + b) % 2 = omega arith in
    two_digits (a % 2) (b % 2) v (omega arith) (omega arith)
    ∙ ap (λ (t : ℕ). digit_times t v) digits

party_holds-digit : (column i : ℕ) → party_holds column i ≡ not (column / 2 ^ i % 2 == 0)
unfolding party_holds
party_holds-digit column i =
    let last : bit_and (column / 2 ^ i) 1 ≡ column / 2 ^ i % 2 = bit_and-mask 1 (column / 2 ^ i) in
    ap (λ (t : ℕ). not (t == 0)) last

div-two-pow : (c i : ℕ) → c / 2 ^ suc i ≡ c / 2 ^ i / 2
div-two-pow c i =
    let powers : 2 ^ i * 2 ≡ 2 ^ suc i = omega (arith, pow-suc 2 i) in
    ap (λ (t : ℕ). c / t) (sym powers) ∙ sym (div-div-eq-div-mul c (2 ^ i) 2)

digits-cancel :
    (c v i n : ℕ)
    → c / 2 ^ i < 2 ^ n
    → xor_sum i n (λ k. digit_times (c / 2 ^ k % 2) v) ≡ digit_times (count_ones (c / 2 ^ i) % 2) v
digits-cancel c v i zero h =
    let none : c / 2 ^ i ≡ 0 = omega arith in
    let no_ones : count_ones (c / 2 ^ i) % 2 ≡ 0 =
      omega (arith, ap count_ones none, count_ones-zero) in
    rw no_ones
digits-cancel c v i (suc n) h =
    let half : c / 2 ^ suc i ≡ c / 2 ^ i / 2 = omega (arith, div-two-pow c i) in
    let small : c / 2 ^ suc i < 2 ^ n = omega (arith, half, pow-suc 2 n) in
    let ones : c / 2 ^ i % 2 + count_ones (c / 2 ^ suc i) ≡ count_ones (c / 2 ^ i) =
      omega (arith, count_ones_step (c / 2 ^ i), ap count_ones half) in
    let parities : (c / 2 ^ i + count_ones (c / 2 ^ suc i)) % 2 ≡ count_ones (c / 2 ^ i) % 2 =
      omega (arith, ones) in
    ap (bit_xor (digit_times (c / 2 ^ i % 2) v)) (digits-cancel c v (suc i) n small)
    ∙ digit_times-bit_xor (c / 2 ^ i) (count_ones (c / 2 ^ suc i)) v
    ∙ ap (λ (t : ℕ). digit_times t v) parities

flip_not : (b : Bool) (v : ℕ) → (if not b then v else 0) ≡ (if b then 0 else v)
flip_not true v = refl
flip_not false v = refl

held_digit :
    (column v k : ℕ) → (if party_holds column k then v else 0) ≡ digit_times (column / 2 ^ k % 2) v
held_digit column v k = rw (party_holds-digit column k) (flip_not (column / 2 ^ k % 2 == 0) v)

-- The sum over the parties of a value that the holders of a column have.
pub holders-cancel :
    (column want v p : ℕ)
    → column < 2 ^ p
    → count_ones column % 2 ≡ want
    → xor_sum 0 p (λ i. if party_holds column i then v else 0) ≡ digit_times want v
holders-cancel column want v p h parity =
    xor_sum_cong 0 p (λ i. if party_holds column i then v else 0)
      (λ k. digit_times (column / 2 ^ k % 2) v) (λ k low high. held_digit column v k)
    ∙ digits-cancel column v 0 p (omega (arith, whole))
    ∙ ap (λ (t : ℕ). digit_times t v) (omega (arith, parity, ap count_ones whole))
  where
    whole : column / 2 ^ 0 ≡ column
    whole = omega arith
