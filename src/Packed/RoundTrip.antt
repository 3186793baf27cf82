-- ===== src/Packed/RoundTrip.antt =====
-- `pack_edge` and `unpack_edge` undo one another, and a packed edge is a field element.
use native.Mathlib.Nat.{pow-le-pow_right, le_trans, add_assoc}
use fed_kg_rag_secure_impl.Prelude.{
  ℕ, ◌+◌, ◌^◌, ◌≤◌, ◌<◌, ◌≡◌, refl, ap, subst, true, List, [], ◌∷◌, map, arith, lt→ltb, bit_or,
}
use fed_kg_rag_secure_impl.Prelude.Arith.{digits-lt}
use fed_kg_rag_secure_impl.Prelude.Bits.{◌<<<◌, bit_or-shift}
use fed_kg_rag_secure_impl.Python.{
  Json, null, other, bool, str, int, pos, negsuc, Result, ok, err, ◌>>=◌, >>=-eq-ok, ok-injective,
}
use fed_kg_rag_secure_impl.Sharing.{element}
use fed_kg_rag_secure_impl.Config.{PublicConfig, is_scalable, field_usable_bits}
use fed_kg_rag_secure_impl.Packed.{
  packing_widths, packed_edge_bits, require_packed_config, fit, pack_fields, pack_edge,
  unpack_fields, unpack_edge, total,
}
use fed_kg_rag_secure_impl.Packed.Fields.{
  encode, Fits, pack_fields-eq-encode, encode-lt, unpack_fields-encode, Fits-unpack_fields,
  encode-unpack_fields,
}

-- A configuration for packed lookup, with the widths of its five fields.
pub record IsPackable (c : PublicConfig) (ws : List ℕ) : Type 0 where
  pub widths : packing_widths c ≡ ok ws
  pub scalable : is_scalable c.field_prime ≡ true
  pub room : total ws ≤ 124

pub require_packed_config-IsPackable :
    (c : PublicConfig) → require_packed_config c ≡ ok tt → (ws : List ℕ) × IsPackable c ws
unfolding require_packed_config packed_edge_bits field_usable_bits
require_packed_config-IsPackable c h = go (packing_widths c) refl
  where
    go : (r : Result (List ℕ)) → packing_widths c ≡ r → (ws : List ℕ) × IsPackable c ws
    go (ok ws) e = (ws, record { widths = e; scalable = ground arith; room = ground arith })
    go (err x) e = absurd (ground arith)

pub require_packed_config-ok :
    (c : PublicConfig) (ws : List ℕ) → IsPackable c ws → require_packed_config c ≡ ok tt
unfolding require_packed_config packed_edge_bits field_usable_bits
require_packed_config-ok c ws p = ground arith

pack_edge-encode :
    (c : PublicConfig) (ws vs : List ℕ)
    → IsPackable c ws
    → Fits vs ws
    → pack_edge c (map element vs) ≡ ok (encode vs ws)
unfolding pack_edge
pack_edge-encode c ws vs p h =
    rw (require_packed_config-ok c ws p, p.widths, pack_fields-eq-encode vs ws 0 0 h (omega arith))
      (ap ok (omega arith))

unpack_edge-unpack_fields :
    (c : PublicConfig) (ws : List ℕ) (n : ℕ)
    → IsPackable c ws
    → n < 2 ^ total ws
    → unpack_edge c n ≡ ok (unpack_fields ws n)
unfolding unpack_edge packed_edge_bits
unpack_edge-unpack_fields c ws n p h =
    rw (require_packed_config-ok c ws p, p.widths, lt→ltb n (1 <<< total ws) (omega arith))

-- What `unpack_edge` has checked when it returns.
pub unpack_edge_inversion :
    (c : PublicConfig) (n : ℕ) {vs : List ℕ}
    → unpack_edge c n ≡ ok vs
    → (ws : List ℕ) × IsPackable c ws × (n < 2 ^ total ws) × (vs ≡ unpack_fields ws n)
unfolding unpack_edge packed_edge_bits
unpack_edge_inversion c n h =
    let (ws, p) = require_packed_config-IsPackable c (ground arith) in
    (ws, p, ground (arith, p.widths), ground (arith, p.widths))

-- In a packable configuration, fields that fit their widths are packed, and unpacked to
-- themselves.
pub unpack_edge-pack_edge :
    (c : PublicConfig) (ws vs : List ℕ)
    → IsPackable c ws
    → Fits vs ws
    → (pack_edge c (map element vs) >>= unpack_edge c) ≡ ok vs
unpack_edge-pack_edge c ws vs p h =
    rw
      (
        pack_edge-encode c ws vs p h,
        unpack_edge-unpack_fields c ws (encode vs ws) p (encode-lt vs ws h),
      )
      (ap ok (unpack_fields-encode vs ws h))

-- Every number that `unpack_edge` accepts is what `pack_edge` makes of the fields it returns.
pub pack_edge-unpack_edge :
    (c : PublicConfig) (n : ℕ) {vs : List ℕ}
    → unpack_edge c n ≡ ok vs
    → pack_edge c (map element vs) ≡ ok n
pack_edge-unpack_edge c n h =
    let (ws, p, small, e) = unpack_edge_inversion c n h in
    rw (e, pack_edge-encode c ws (unpack_fields ws n) p (Fits-unpack_fields ws n))
      (ap ok (encode-unpack_fields ws n small))

fit_inversion : (x : Json) (w : ℕ) {v : ℕ} → fit x w ≡ ok v → (x ≡ element v) × (v < 2 ^ w)
fit_inversion null w h = cc
fit_inversion other w h = cc
fit_inversion (bool b) w h = cc
fit_inversion (str s) w h = cc
fit_inversion (int (negsuc n)) w h = cc
fit_inversion (int (pos n)) w h = ground arith

power_grows : (a b : ℕ) → 2 ^ a ≤ 2 ^ (a + b)
power_grows a b = pow-le-pow_right (omega arith) (omega arith)

pack_fields-lt :
    (xs : List Json) (ws : List ℕ) (result shift : ℕ) {n : ℕ}
    → pack_fields xs ws result shift ≡ ok n
    → result < 2 ^ shift
    → n < 2 ^ (shift + total ws)
unfolding pack_fields
pack_fields-lt [] ws result shift {n} h k =
    rw (← ok-injective h) (le_trans k (power_grows shift (total ws)))
pack_fields-lt (x ∷ xs) [] result shift h k =
    rw (← ok-injective h) (le_trans k (power_grows shift 0))
pack_fields-lt (x ∷ xs) (w ∷ ws) result shift {n} h k =
    let (v, fits, rest) =
      >>=-eq-ok (fit x w) (λ v. pack_fields xs ws (bit_or result (v <<< shift)) (shift + w)) h in
    let room : bit_or result (v <<< shift) < 2 ^ (shift + w) =
      rw (bit_or-shift shift result v k)
        (digits-lt shift w result v k (fit_inversion x w fits).1) in
    subst (λ (t : ℕ). n < 2 ^ t) (add_assoc shift w (total ws))
      (pack_fields-lt xs ws (bit_or result (v <<< shift)) (shift + w) rest room)

scalable_room : (q : ℕ) → is_scalable q ≡ true → 2 ^ 124 ≤ q
scalable_room q h = ground arith

-- A packed edge that `pack_edge` returns is smaller than the field prime.
pub pack_edge-lt_field_prime :
    (c : PublicConfig) (fields : List Json) {n : ℕ} → pack_edge c fields ≡ ok n → n < c.field_prime
unfolding pack_edge
pack_edge-lt_field_prime c fields {n} h =
    let (_, required, rest) =
      >>=-eq-ok (require_packed_config c)
        (λ _. packing_widths c >>= λ ws. pack_fields fields ws 0 0) h in
    let (ws, p) = require_packed_config-IsPackable c required in
    let packed : pack_fields fields ws 0 0 ≡ ok n = rw p.widths at rest in
    let room : 0 + total ws ≤ 124 = omega (arith, p.room) in
    le_trans (pack_fields-lt fields ws 0 0 packed (omega arith))
      (le_trans (pow-le-pow_right (omega arith) room) (scalable_room c.field_prime p.scalable))
