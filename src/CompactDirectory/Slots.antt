-- ===== src/CompactDirectory/Slots.antt =====
-- compact_directory.py, `pack_slot`: the two parts of a packed slot.
use fed_kg_rag_secure_impl.Prelude.{
  ℕ, ◌+◌, ◌-◌, ◌*◌, ◌/◌, ◌%◌, ◌^◌, ◌<◌, ◌≡◌, ap, ◌∙◌, arith, bit_and,
}
use fed_kg_rag_secure_impl.Prelude.Arith.{div_unique, mod_unique}
use fed_kg_rag_secure_impl.Prelude.Bits.{◌<<<◌, ◌>>>◌, bit_and-mask, shift-bit_or}
use fed_kg_rag_secure_impl.Python.{ok}
use fed_kg_rag_secure_impl.CompactDirectory.{pack_slot}

packed_sum :
    (tag descriptor bits : ℕ) {packed : ℕ}
    → pack_slot tag descriptor bits ≡ ok packed
    → (packed ≡ tag * 2 ^ bits + descriptor) × (descriptor < 2 ^ bits)
unfolding pack_slot
packed_sum tag descriptor bits h = ground (arith, shift-bit_or bits descriptor tag)

-- When `pack_slot` accepts a tag and a descriptor, the packed slot shifted right by the descriptor
-- bits is the tag, and its low descriptor bits are the descriptor.
pub pack_slot-unpacks :
    (tag descriptor bits : ℕ) {packed : ℕ}
    → pack_slot tag descriptor bits ≡ ok packed
    → (packed >>> bits ≡ tag) × (bit_and packed ((1 <<< bits) - 1) ≡ descriptor)
pack_slot-unpacks tag descriptor bits {packed} h =
    let (e, small) = packed_sum tag descriptor bits h in
    (
      ap (λ (t : ℕ). t / 2 ^ bits) e ∙ div_unique tag descriptor (2 ^ bits) small,
      bit_and-mask bits packed
          ∙ (ap (λ (t : ℕ). t % 2 ^ bits) e ∙ mod_unique tag descriptor (2 ^ bits) small),
    )
