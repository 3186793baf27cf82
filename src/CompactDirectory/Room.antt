-- ===== src/CompactDirectory/Room.antt =====
-- compact_directory.py, `build_owner_table`: runs on keys that fit their buckets.
use fed_kg_rag_secure_impl.Prelude.{
  ℕ, ◌+◌, ◌*◌, ◌^◌, ◌<◌, ◌≤◌, ◌≡◌, ◌≢◌, ap, refl, ◌∙◌, arith, Bool-cases, inl, inr, false, List, [],
  ◌∷◌, ◌==◌, ==→eq, ==_refl, length, length-set, set, leb, bit_or, All, if◌then◌else◌,
}
use fed_kg_rag_secure_impl.Prelude.Bits.{◌<<<◌}
use fed_kg_rag_secure_impl.Python.{ok, insert, nat_key}
use fed_kg_rag_secure_impl.Python.Sequence.{set_item-ok, keys_of}
use fed_kg_rag_secure_impl.CompactDirectory.{
  TableShape, width, bucket_of, filled_of, pack_slot, place_slot, fill_table,
}
use fed_kg_rag_secure_impl.CompactDirectory.Buckets.{bucket_of-lt}
use fed_kg_rag_secure_impl.CompactDirectory.Table.{position, position-lt, filled_of-insert}
use fed_kg_rag_secure_impl.CompactDirectory.Load.{tally, tally-cons, AllHash}

-- A key that can be stored: not the reserved one, with a descriptor that fits.
unfoldable pub IsStorable : ℕ → ℕ × ℕ → Type 0
IsStorable bits e = (e.0 ≢ 0) × (e.1 < 2 ^ bits)

-- The slots that are used and the keys that follow fit each bucket.
unfoldable pub HasRoom : TableShape → List (ℕ × ℕ) → List (ℕ × ℕ) → Type 0
HasRoom s filled keyed =
    (bucket : ℕ) → filled_of bucket filled + tally s.buckets bucket (keys_of keyed) ≤ s.slots

pack_slot_ok :
    (tag descriptor bits : ℕ)
    → descriptor < 2 ^ bits
    → (packed : ℕ) × (pack_slot tag descriptor bits ≡ ok packed)
unfolding pack_slot
pack_slot_ok tag descriptor bits h =
    let small : leb (1 <<< bits) descriptor ≡ false = ground arith in
    (bit_or (tag <<< bits) descriptor, rw small refl)

place_slot_ok :
    (s : TableShape) (owner tag descriptor bucket : ℕ) (table : List ℕ) (filled : List (ℕ × ℕ))
    → owner < s.owner_count
    → length table ≡ s.buckets * width s
    → IsStorable s.descriptor_bits (tag, descriptor)
    → bucket_of tag s.buckets ≡ ok bucket
    → filled_of bucket filled < s.slots
    → (next : List ℕ) × (length next ≡ length table)
      × (place_slot s owner tag descriptor table filled
          ≡ ok (next, insert bucket (filled_of bucket filled + 1) filled))
unfolding place_slot IsStorable position
place_slot_ok s owner tag descriptor bucket table filled small size storable hash room =
    let used = filled_of bucket filled in
    let (packed, packs) = pack_slot_ok tag descriptor s.descriptor_bits storable.1 in
    let at = bucket * width s + (owner * s.slots + used) in
    let inside = position-lt s bucket owner used (bucket_of-lt tag s.buckets hash) small room in
    let live : (tag == 0) ≡ false = ground (arith, storable.0) in
    let free : leb s.slots used ≡ false = ground arith in
    let writes = set_item-ok table at packed (omega (arith, inside, size)) in
    (set table at packed, length-set table at packed, rw (live, hash, free, packs, writes) refl)

pub fill_table_ok :
    (s : TableShape) (owner : ℕ) (keyed : List (ℕ × ℕ)) (table : List ℕ) (filled : List (ℕ × ℕ))
    → owner < s.owner_count
    → length table ≡ s.buckets * width s
    → All (IsStorable s.descriptor_bits) keyed
    → AllHash s.buckets (keys_of keyed)
    → HasRoom s filled keyed
    → (out : List ℕ) × (fill_table s owner keyed table filled ≡ ok out)
unfolding fill_table HasRoom AllHash
fill_table_ok s owner [] table filled small size storable hash room = (table, refl)
fill_table_ok s owner ((tag, descriptor) ∷ keyed) table filled small size storable hash room =
    let (bucket, own) = hash.0 in
    let counted : (b : ℕ)
        → tally s.buckets b (tag ∷ keys_of keyed)
          ≡ (if b == bucket then 1 else 0) + tally s.buckets b (keys_of keyed) =
      λ b. tally-cons s.buckets b tag (keys_of keyed) own in
    let counted_here = counted bucket in
    let here = rw (==_refl bucket) at counted_here in
    let free : filled_of bucket filled < s.slots = omega (arith, room bucket, here) in
    let (next, same, run) =
      place_slot_ok s owner tag descriptor bucket table filled small size storable.0 own free in
    let rest_room : (b : ℕ)
        → filled_of b (insert bucket (filled_of bucket filled + 1) filled)
            + tally s.buckets b (keys_of keyed)
          ≤ s.slots =
      λ b.
        let step = filled_of-insert bucket b (filled_of bucket filled + 1) filled in
        let total = counted b in
        elim (Bool-cases (b == bucket)) [
          | inl e ↦ omega (
            arith,
            room b,
            rw e at step,
            rw e at total,
            ap (λ (x : ℕ). filled_of x filled) (==→eq b bucket e),
          )
          | inr ne ↦ omega (arith, room b, rw ne at step, rw ne at total)
        ] in
    let (out, rest) =
      fill_table_ok s owner keyed next (insert bucket (filled_of bucket filled + 1) filled) small
        (same ∙ size) storable.1 hash.1 rest_room in
    (out, rw run rest)
