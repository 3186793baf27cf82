-- ===== src/Packed.antt =====
-- doram_t2_3pc/packed.py: an edge record packed into the bits of one field element, the checks of
-- an owner's raw edges, the capacity report and the packed adjacency vector.
pub mod Edges
pub mod Slots
pub mod Fields
pub mod RoundTrip
pub mod Unpacks
pub mod Vector
use fed_kg_rag_secure_impl.Prelude.{
  ℕ, zero, suc, ◌+◌, ◌-◌, ◌*◌, ◌^◌, ◌≡◌, String, Bool, true, false, Option, none, some, List, [],
  ◌∷◌, ◌++◌, map, length, bit_and, bit_or, max, not, ltb, leb, ◌==◌, ◌&&◌, ◌||◌, str_eq,
  if◌then◌else◌, replicate,
}
use fed_kg_rag_secure_impl.Prelude.Bits.{◌<<<◌, ◌>>>◌, bit_length}
use fed_kg_rag_secure_impl.Python.{
  Json, null, other, bool, str, int, ℤ, pos, negsuc, as_int, in_range, Result, ok, err, value_error,
  type_error, index_error, ◌>>=◌, ◌>>◌, raise_if, contains, lookup, insert, string_key, pair_key,
  nat_key,
}
use fed_kg_rag_secure_impl.Config.{
  PublicConfig, values, entity_count, is_scalable, field_usable_bits, relation_frontier_per_owner,
}

-- `max(xs)`, which raises on an empty sequence.
abbrev pub max_from : ℕ → List ℕ → ℕ
max_from m [] = m
max_from m (x ∷ xs) = max_from (max m x) xs

abbrev pub max_of : List ℕ → Result ℕ
max_of [] = err value_error
max_of (x ∷ xs) = ok (max_from x xs)

unfoldable pub packing_widths : PublicConfig → Result (List ℕ)
packing_widths c = do
  largest ← max_of (values c.relations)
  ok (
      max 1 (bit_length (entity_count c - 1))
      ∷ max 1 (bit_length largest)
      ∷ c.evidence_bits
      ∷ c.score_bits
      ∷ 1
      ∷ [])

abbrev pub total : List ℕ → ℕ
total [] = 0
total (w ∷ ws) = w + total ws

unfoldable pub packed_edge_bits : PublicConfig → Result ℕ
packed_edge_bits c = do widths ← packing_widths c; ok (total widths)

unfoldable pub require_packed_config : PublicConfig → Result (Unit {0})
require_packed_config c = do
  raise_if (not (is_scalable c.field_prime)) value_error
  bits ← packed_edge_bits c
  raise_if (ltb (field_usable_bits c) bits) value_error

abbrev fit_int : Option ℤ → ℕ → Result ℕ
fit_int none width = err type_error
fit_int (some z) width = elim (in_range z (1 <<< width)) [ none ↦ err value_error | some v ↦ ok v ]

-- The tests on one field: an integer in `[0, 1 <<< width)`.
abbrev pub fit : Json → ℕ → Result ℕ
fit value width = fit_int (as_int value) width

-- The loop of `pack_edge` over `zip(values, widths)`.
unfoldable pub pack_fields : List Json → List ℕ → ℕ → ℕ → Result ℕ
pack_fields [] ws result shift = ok result
pack_fields (x ∷ xs) [] result shift = ok result
pack_fields (x ∷ xs) (w ∷ ws) result shift = do
  v ← fit x w
  pack_fields xs ws (bit_or result (v <<< shift)) (shift + w)

unfoldable pub pack_edge : PublicConfig → List Json → Result ℕ
pack_edge c fields = do
  require_packed_config c
  widths ← packing_widths c
  pack_fields fields widths 0 0

-- The loop of `unpack_edge`.
unfoldable pub unpack_fields : List ℕ → ℕ → List ℕ
unpack_fields [] value = []
unpack_fields (w ∷ ws) value = bit_and value ((1 <<< w) - 1) ∷ unpack_fields ws (value >>> w)

unfoldable pub unpack_edge : PublicConfig → ℕ → Result (List ℕ)
unpack_edge c value = do
  require_packed_config c
  bits ← packed_edge_bits c
  raise_if (not (ltb value (1 <<< bits))) value_error
  widths ← packing_widths c
  ok (unpack_fields widths value)
