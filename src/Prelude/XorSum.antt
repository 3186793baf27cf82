-- ===== src/Prelude/XorSum.antt =====
-- The exclusive or of `f start`, `f (start + 1)` and so on, `n` of them.
use Prim.Native.Nat.{ℕ, zero, suc, ◌+◌, ◌≤◌, ◌<◌, bit_xor}
use mathlib.Core.Path.{◌≡◌, refl, sym, ap, ap₂, ◌∙◌}
use native.Mathlib.Omega.{arith}
use fed_kg_rag_secure_impl.Prelude.Xor.{bit_xor_assoc, bit_xor_comm, zero-bit_xor}

abbrev pub xor_sum : ℕ → ℕ → (ℕ → ℕ) → ℕ
xor_sum start zero f = 0
xor_sum start (suc n) f = bit_xor (f start) (xor_sum (suc start) n f)

pub bit_xor-zero : (a : ℕ) → bit_xor a 0 ≡ a
bit_xor-zero a = bit_xor_comm a 0 ∙ zero-bit_xor a

-- Four summands, the middle two exchanged.
pub exchange :
    (a b c d : ℕ) → bit_xor (bit_xor a b) (bit_xor c d) ≡ bit_xor (bit_xor a c) (bit_xor b d)
exchange a b c d =
    bit_xor_assoc a b (bit_xor c d)
    ∙ ap (bit_xor a) (
        sym (bit_xor_assoc b c d)
        ∙ ap (λ (t : ℕ). bit_xor t d) (bit_xor_comm b c)
        ∙ bit_xor_assoc c b d)
    ∙ sym (bit_xor_assoc a c (bit_xor b d))

pub xor_sum_cong :
    (start n : ℕ) (f g : ℕ → ℕ)
    → ((k : ℕ) → start ≤ k → k < start + n → f k ≡ g k)
    → xor_sum start n f ≡ xor_sum start n g
xor_sum_cong start zero f g h = refl
xor_sum_cong start (suc n) f g h =
    ap₂ bit_xor (h start (omega arith) (omega arith))
      (xor_sum_cong (suc start) n f g (λ k low high. h k (omega arith) (omega arith)))

pub xor_sum_zero : (start n : ℕ) → xor_sum start n (λ k. 0) ≡ 0
xor_sum_zero start zero = refl
xor_sum_zero start (suc n) =
    zero-bit_xor (xor_sum (suc start) n (λ k. 0)) ∙ xor_sum_zero (suc start) n

pub xor_sum-bit_xor :
    (start n : ℕ) (f g : ℕ → ℕ)
    → xor_sum start n (λ k. bit_xor (f k) (g k)) ≡ bit_xor (xor_sum start n f) (xor_sum start n g)
xor_sum-bit_xor start zero f g = sym (zero-bit_xor 0)
xor_sum-bit_xor start (suc n) f g =
    ap (bit_xor (bit_xor (f start) (g start))) (xor_sum-bit_xor (suc start) n f g)
    ∙ exchange (f start) (g start) (xor_sum (suc start) n f) (xor_sum (suc start) n g)

-- A double sum in the other order.
pub xor_sum_swap :
    (i n j m : ℕ) (f : ℕ → ℕ → ℕ)
    → xor_sum i n (λ k. xor_sum j m (f k)) ≡ xor_sum j m (λ l. xor_sum i n (λ k. f k l))
xor_sum_swap i zero j m f = sym (xor_sum_zero j m)
xor_sum_swap i (suc n) j m f =
    ap (bit_xor (xor_sum j m (f i))) (xor_sum_swap (suc i) n j m f)
    ∙ sym (xor_sum-bit_xor j m (f i) (λ l. xor_sum (suc i) n (λ k. f k l)))

-- The last summand apart.
pub xor_sum_last :
    (start n : ℕ) (f : ℕ → ℕ)
    → xor_sum start (suc n) f ≡ bit_xor (xor_sum start n f) (f (start + n))
xor_sum_last start zero f =
    let here : start ≡ start + 0 = omega arith in
    bit_xor_comm (f start) 0 ∙ ap (λ (k : ℕ). bit_xor 0 (f k)) here
xor_sum_last start (suc n) f =
    let there : suc start + n ≡ start + suc n = omega arith in
    ap (bit_xor (f start)) (xor_sum_last (suc start) n f)
    ∙ sym (bit_xor_assoc (f start) (xor_sum (suc start) n f) (f (suc start + n)))
    ∙ ap (λ (k : ℕ). bit_xor (bit_xor (f start) (xor_sum (suc start) n f)) (f k)) there
