-- ===== src/CompactDirectory/Table.antt =====
-- compact_directory.py, the body of the loop of `build_owner_table`: what a placed key writes.
use fed_kg_rag_secure_impl.Prelude.{
  ℕ, ◌+◌, ◌*◌, ◌/◌, ◌<◌, ◌≡◌, ◌≢◌, ap, sym, ◌∙◌, arith, List, ◌==◌, leb, length, set, get_or,
  if◌then◌else◌,
}
use fed_kg_rag_secure_impl.Prelude.Arith.{div_unique, digit-lt}
use fed_kg_rag_secure_impl.Python.{
  ok, value_error, >>=-eq-ok, raise_if, ok-injective, insert, lookup-insert, nat_key,
}
use fed_kg_rag_secure_impl.Python.Sequence.{set_item, set_item-set}
use fed_kg_rag_secure_impl.CompactDirectory.{
  TableShape, width, filled_of, bucket_of, pack_slot, place_slot,
}

-- The cell of a slot of an owner in a bucket.
unfoldable pub position : TableShape → ℕ → ℕ → ℕ → ℕ
position s bucket owner slot = bucket * width s + (owner * s.slots + slot)

abbrev pub cell_of : List ℕ → ℕ → ℕ
cell_of table i = get_or table i 0

module _ (s : TableShape) where
  pub column-lt :
      (owner slot : ℕ) → owner < s.owner_count → slot < s.slots → owner * s.slots + slot < width s
  column-lt owner slot h k = digit-lt owner slot s.slots s.owner_count h k

  pub position-lt :
      (bucket owner slot : ℕ)
      → bucket < s.buckets
      → owner < s.owner_count
      → slot < s.slots
      → position s bucket owner slot < s.buckets * width s
  unfolding position
  position-lt bucket owner slot h k l =
      digit-lt bucket (owner * s.slots + slot) (width s) s.buckets h (column-lt owner slot k l)

  -- The bucket, the owner and the slot of a cell.
  pub position-injective :
      (b o u c p v : ℕ)
      → o < s.owner_count
      → u < s.slots
      → p < s.owner_count
      → v < s.slots
      → position s b o u ≡ position s c p v
      → (b ≡ c) × (o ≡ p) × (u ≡ v)
  unfolding position
  position-injective b o u c p v h k l m e =
      let rows : b ≡ c =
        sym (div_unique b (o * s.slots + u) (width s) (column-lt o u h k))
        ∙ ap (λ (t : ℕ). t / width s) e
        ∙ div_unique c (p * s.slots + v) (width s) (column-lt p v l m) in
      let columns : o * s.slots + u ≡ p * s.slots + v =
        omega (arith, ap (λ (t : ℕ). t * width s) rows) in
      let owners : o ≡ p =
        sym (div_unique o u s.slots k)
        ∙ ap (λ (t : ℕ). t / s.slots) columns
        ∙ div_unique p v s.slots m in
      (rows, owners, omega (arith, ap (λ (t : ℕ). t * s.slots) owners))

pub filled_of-insert :
    (a b v : ℕ) (d : List (ℕ × ℕ))
    → filled_of b (insert a v d) ≡ (if b == a then v else filled_of b d)
filled_of-insert a b v d = rw (lookup-insert a b v d) (ground arith)

-- What a placed key has met and written.
pub record IsPlaced (s : TableShape) (owner tag descriptor : ℕ) (table : List ℕ)
    (filled : List (ℕ × ℕ)) (next : List ℕ) (counts : List (ℕ × ℕ)) : Type 0 where
  pub bucket : ℕ
  pub packed : ℕ
  pub nonzero : tag ≢ 0
  pub hashed : bucket_of tag s.buckets ≡ ok bucket
  pub free : filled_of bucket filled < s.slots
  pub packs : pack_slot tag descriptor s.descriptor_bits ≡ ok packed
  pub inside : position s bucket owner (filled_of bucket filled) < length table
  pub written : next ≡ set table (position s bucket owner (filled_of bucket filled)) packed
  pub counted : counts ≡ insert bucket (filled_of bucket filled + 1) filled

pub place_slot-IsPlaced :
    (s : TableShape) (owner tag descriptor : ℕ) (table : List ℕ) (filled : List (ℕ × ℕ))
    {next : List ℕ} {counts : List (ℕ × ℕ)}
    → place_slot s owner tag descriptor table filled ≡ ok (next, counts)
    → IsPlaced s owner tag descriptor table filled next counts
unfolding place_slot position
place_slot-IsPlaced s owner tag descriptor table filled h =
    let (u, live, h1) = >>=-eq-ok (raise_if (tag == 0) value_error) _ h in
    let (bucket, hashed, h2) = >>=-eq-ok (bucket_of tag s.buckets) _ h1 in
    let (v, free, h3) =
      >>=-eq-ok (raise_if (leb s.slots (filled_of bucket filled)) value_error) _ h2 in
    let (packed, packs, h4) = >>=-eq-ok (pack_slot tag descriptor s.descriptor_bits) _ h3 in
    let (next, wrote, h5) =
      >>=-eq-ok
        (set_item table (bucket * width s + (owner * s.slots + filled_of bucket filled)) packed) _
        h4 in
    let pair = ok-injective h5 in
    let (wrote_as, inside) = set_item-set table _ packed wrote in
    record {
      bucket = bucket;
      packed = packed;
      nonzero = ground arith;
      hashed = hashed;
      free = ground arith;
      packs = packs;
      inside = inside;
      written = sym (ap (λ p. p.0) pair) ∙ wrote_as;
      counted = sym (ap (λ p. p.1) pair);
    }
