-- ===== src/Packed/Unpacks.antt =====
-- Whatever `pack_edge` accepts, `unpack_edge` gives back; and zero is no packed edge.
use fed_kg_rag_secure_impl.Prelude.{
  ℕ, ◌+◌, ◌^◌, ◌<◌, ◌≡◌, ◌≢◌, refl, sym, ap, ap₂, subst, ◌∙◌, List, [], ◌∷◌, map, arith, length,
  get_or, one-le-pow, bit_or, replicate,
}
use fed_kg_rag_secure_impl.Prelude.Arith.{zero-mod, zero-div}
use fed_kg_rag_secure_impl.Prelude.Bits.{◌<<<◌, bit_and-mask}
use fed_kg_rag_secure_impl.Python.{ok, ◌>>=◌, >>=-eq-ok, ok-injective}
use fed_kg_rag_secure_impl.Sharing.{element}
use fed_kg_rag_secure_impl.Config.{PublicConfig}
use fed_kg_rag_secure_impl.Packed.{
  packing_widths, require_packed_config, fit, pack_fields, pack_edge, unpack_fields, unpack_edge,
}
use fed_kg_rag_secure_impl.Packed.Fields.{Fits}
use fed_kg_rag_secure_impl.Packed.RoundTrip.{
  require_packed_config-IsPackable, unpack_edge-pack_edge, unpack_edge_inversion,
}

fit-element-lt : (v w : ℕ) {n : ℕ} → fit (element v) w ≡ ok n → v < 2 ^ w
fit-element-lt v w h = ground arith

pack_fields-Fits :
    (vs ws : List ℕ) (result shift : ℕ) {n : ℕ}
    → length vs ≡ length ws
    → pack_fields (map element vs) ws result shift ≡ ok n
    → Fits vs ws
unfolding pack_fields
pack_fields-Fits [] [] result shift same h = tt
pack_fields-Fits [] (w ∷ ws) result shift same h = absurd (omega arith)
pack_fields-Fits (v ∷ vs) [] result shift same h = absurd (omega arith)
pack_fields-Fits (v ∷ vs) (w ∷ ws) result shift same h =
    let (u, e, rest) =
      >>=-eq-ok (fit (element v) w)
        (λ u. pack_fields (map element vs) ws (bit_or result (u <<< shift)) (shift + w)) h in
    (fit-element-lt v w e, pack_fields-Fits vs ws _ _ (omega arith) rest)

five_widths : (c : PublicConfig) {ws : List ℕ} → packing_widths c ≡ ok ws → length ws ≡ 5
unfolding packing_widths
five_widths c h = ground arith

-- Whenever `pack_edge` accepts five fields, `unpack_edge` returns those five fields from the
-- packed number.
pub pack_edge-unpacks :
    (c : PublicConfig) (vs : List ℕ) {n : ℕ}
    → length vs ≡ 5
    → pack_edge c (map element vs) ≡ ok n
    → unpack_edge c n ≡ ok vs
unfolding pack_edge
pack_edge-unpacks c vs {n} five h =
    let (_, required, rest) =
      >>=-eq-ok (require_packed_config c)
        (λ _. packing_widths c >>= λ ws. pack_fields (map element vs) ws 0 0) h in
    let (ws, p) = require_packed_config-IsPackable c required in
    let packed : pack_fields (map element vs) ws 0 0 ≡ ok n = rw p.widths at rest in
    let fits = pack_fields-Fits vs ws 0 0 (omega (arith, five, five_widths c p.widths)) packed in
    let (m, e, back) =
      >>=-eq-ok (pack_edge c (map element vs)) (unpack_edge c)
        (unpack_edge-pack_edge c ws vs p fits) in
    subst (λ (t : ℕ). unpack_edge c t ≡ ok vs) (ok-injective (sym e ∙ h)) back

unpack_fields-zero : (ws : List ℕ) → unpack_fields ws 0 ≡ replicate (length ws) 0
unfolding unpack_fields
unpack_fields-zero [] = refl
unpack_fields-zero (w ∷ ws) =
    let some : 0 < 2 ^ w = one-le-pow w 2 (omega arith) in
    ap₂ ◌∷◌ (bit_and-mask w 0 ∙ zero-mod (2 ^ w) some)
      (ap (unpack_fields ws) (zero-div (2 ^ w) some) ∙ unpack_fields-zero ws)

-- A packed edge whose last field is one is not zero.
pub pack_edge-ne-zero :
    (c : PublicConfig) (vs : List ℕ) {n : ℕ}
    → length vs ≡ 5
    → get_or vs 4 0 ≡ 1
    → pack_edge c (map element vs) ≡ ok n
    → n ≢ 0
pack_edge-ne-zero c vs {n} five valid h zero_edge =
    let (ws, p, _, e) = unpack_edge_inversion c n (pack_edge-unpacks c vs five h) in
    let zeros : vs ≡ replicate 5 0 =
      e
      ∙ ap (unpack_fields ws) zero_edge
      ∙ unpack_fields-zero ws
      ∙ ap (λ (t : ℕ). replicate t 0) (five_widths c p.widths) in
    absurd (omega (arith, valid, ap (λ (l : List ℕ). get_or l 4 0) zeros))
