-- ===== src/Packed/Fields.antt =====
-- Packing a list of fields by their widths, as arithmetic: a number in a mixed radix.
use native.Mathlib.Nat.{mod-lt, mul_comm, mod-add-div', div-lt_iff_lt-mul}
use fed_kg_rag_secure_impl.Prelude.{
  ℕ, ◌+◌, ◌*◌, ◌/◌, ◌%◌, ◌^◌, ◌<◌, ◌≡◌, refl, ap, ap₂, ◌∙◌, List, [], ◌∷◌, map, arith, one-le-pow,
}
use fed_kg_rag_secure_impl.Prelude.Arith.{div_unique, mod_unique, pow-add, digits-lt}
use fed_kg_rag_secure_impl.Prelude.Bits.{◌>>>◌, bit_or-shift, bit_and-mask}
use fed_kg_rag_secure_impl.Python.{ok}
use fed_kg_rag_secure_impl.Sharing.{element}
use fed_kg_rag_secure_impl.Packed.{fit, pack_fields, unpack_fields, total}

low_digit : (w v q : ℕ) → v < 2 ^ w → (v + q * 2 ^ w) % 2 ^ w ≡ v
low_digit w v q h = ap (λ (t : ℕ). t % 2 ^ w) (omega arith) ∙ mod_unique q v (2 ^ w) h

high_digits : (w v q : ℕ) → v < 2 ^ w → (v + q * 2 ^ w) >>> w ≡ q
high_digits w v q h = ap (λ (t : ℕ). t / 2 ^ w) (omega arith) ∙ div_unique q v (2 ^ w) h

high_digits-lt : (w t n : ℕ) → n < 2 ^ (w + t) → n >>> w < 2 ^ t
high_digits-lt w t n h =
    (div-lt_iff_lt-mul (one-le-pow w 2 (omega arith))).1
      (omega (arith, pow-add w t, mul_comm (2 ^ w) (2 ^ t)))

-- The number whose digits are the fields, the first one lowest.
unfoldable pub encode : List ℕ → List ℕ → ℕ
encode [] ws = 0
encode (v ∷ vs) [] = 0
encode (v ∷ vs) (w ∷ ws) = v + encode vs ws * 2 ^ w

-- As many fields as widths, and each fits its width.
abbrev pub Fits : List ℕ → List ℕ → Type 0
Fits [] [] = Unit
Fits [] (w ∷ ws) = ⊥
Fits (v ∷ vs) [] = ⊥
Fits (v ∷ vs) (w ∷ ws) = (v < 2 ^ w) × Fits vs ws

fit-element : (v w : ℕ) → v < 2 ^ w → fit (element v) w ≡ ok v
fit-element v w h = ground arith

pub pack_fields-eq-encode :
    (vs ws : List ℕ) (result shift : ℕ)
    → Fits vs ws
    → result < 2 ^ shift
    → pack_fields (map element vs) ws result shift ≡ ok (result + encode vs ws * 2 ^ shift)
unfolding pack_fields encode
pack_fields-eq-encode [] [] result shift h k = ap ok (omega arith)
pack_fields-eq-encode [] (w ∷ ws) result shift h k = absurd h
pack_fields-eq-encode (v ∷ vs) [] result shift h k = absurd h
pack_fields-eq-encode (v ∷ vs) (w ∷ ws) result shift h k =
    rw
      (
        fit-element v w h.0,
        bit_or-shift shift result v k,
        pack_fields-eq-encode vs ws (result + v * 2 ^ shift) (shift + w) h.1
            (digits-lt shift w result v k h.0),
      )
      (ap ok (omega (arith, ap (λ (t : ℕ). encode vs ws * t) (pow-add shift w))))

pub encode-lt : (vs ws : List ℕ) → Fits vs ws → encode vs ws < 2 ^ total ws
unfolding encode
encode-lt [] [] h = omega arith
encode-lt [] (w ∷ ws) h = absurd h
encode-lt (v ∷ vs) [] h = absurd h
encode-lt (v ∷ vs) (w ∷ ws) h = digits-lt w (total ws) v (encode vs ws) h.0 (encode-lt vs ws h.1)

pub unpack_fields-encode : (vs ws : List ℕ) → Fits vs ws → unpack_fields ws (encode vs ws) ≡ vs
unfolding unpack_fields encode
unpack_fields-encode [] [] h = refl
unpack_fields-encode [] (w ∷ ws) h = absurd h
unpack_fields-encode (v ∷ vs) [] h = absurd h
unpack_fields-encode (v ∷ vs) (w ∷ ws) h =
    ap₂ ◌∷◌ (bit_and-mask w _ ∙ low_digit w v (encode vs ws) h.0)
      (ap (unpack_fields ws) (high_digits w v (encode vs ws) h.0) ∙ unpack_fields-encode vs ws h.1)

-- Unpacking any number of the right width gives fields that fit, and encoding them gives it back.
pub Fits-unpack_fields : (ws : List ℕ) (n : ℕ) → Fits (unpack_fields ws n) ws
unfolding unpack_fields
Fits-unpack_fields [] n = tt
Fits-unpack_fields (w ∷ ws) n =
    (rw bit_and-mask (mod-lt n (one-le-pow w 2 (omega arith))), Fits-unpack_fields ws (n >>> w))

pub encode-unpack_fields :
    (ws : List ℕ) (n : ℕ) → n < 2 ^ total ws → encode (unpack_fields ws n) ws ≡ n
unfolding unpack_fields encode
encode-unpack_fields [] n h = omega arith
encode-unpack_fields (w ∷ ws) n h =
    rw (bit_and-mask w n, encode-unpack_fields ws (n >>> w) (high_digits-lt w (total ws) n h))
      (mod-add-div' n (2 ^ w))
