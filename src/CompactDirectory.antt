-- ===== src/CompactDirectory.antt =====
-- doram_t2_3pc/compact_directory.py: a directory of hash buckets in which every owner has columns
-- of its own. Tags and descriptors are natural numbers. `slack` and `public_capacity_bound` compute
-- with floating point numbers and are not modelled.
pub mod Plan
pub mod Slots
pub mod Buckets
pub mod Table
pub mod Placing
pub mod Build
pub mod Columns
pub mod Lookup
pub mod Load
pub mod Room
pub mod Capacity
pub mod Planned
pub mod Cheapest
use fed_kg_rag_secure_impl.Prelude.{
  ℕ, zero, suc, ◌+◌, ◌-◌, ◌*◌, ◌^◌, ◌%◌, Bool, true, false, Option, none, some, List, [], ◌∷◌, ◌++◌,
  map, not, ltb, leb, ◌==◌, ◌&&◌, ◌||◌, String, length, replicate, max, bit_and, bit_or,
  if◌then◌else◌,
}
use fed_kg_rag_secure_impl.Prelude.Bits.{◌<<<◌, ◌>>>◌, bit_length}
use fed_kg_rag_secure_impl.Python.{
  Result, ok, err, value_error, ◌>>=◌, ◌>>◌, raise_if, map_result, lookup, insert, nat_key,
}
use fed_kg_rag_secure_impl.Python.Sequence.{get_item, set_item, sort_by, max_default}
use fed_kg_rag_secure_impl.Config.{range_from}

abbrev pub multiplier : ℕ
multiplier = 0x9E3779B97F4A7C15

abbrev pub hash_input_bits : ℕ
hash_input_bits = 40

abbrev pub hash_word_bits : ℕ
hash_word_bits = 64

unfoldable pub key_tag : ℕ → ℕ → ℕ → Result ℕ
key_tag entity relation relation_count = do
  raise_if (not (leb 1 relation && leb relation relation_count)) value_error
  ok (entity * relation_count + (relation - 1) + 1)

-- The hash of a tag by the high bits of a product; a shift by a negative count raises.
unfoldable pub hash_bucket : ℕ → ℕ → Result ℕ
hash_bucket tag width = do
  raise_if (ltb hash_word_bits width) value_error
  ok (bit_and (tag * multiplier) ((1 <<< hash_word_bits) - 1) >>> (hash_word_bits - width))

unfoldable pub bucket_of : ℕ → ℕ → Result ℕ
bucket_of tag buckets = do
  raise_if (ltb buckets 1 || not (bit_and buckets (buckets - 1) == 0)) value_error
  let hashed = (do
    raise_if (ltb hash_input_bits (bit_length tag)) value_error
    hash_bucket tag (bit_length buckets - 1))
  if buckets == 1 then ok 0 else hashed

abbrev or_zero : Option ℕ → ℕ
or_zero none = 0
or_zero (some n) = n

-- `counts.get(bucket, 0)`
abbrev pub filled_of : ℕ → List (ℕ × ℕ) → ℕ
filled_of bucket counts = or_zero (lookup bucket counts)

unfoldable pub pack_slot : ℕ → ℕ → ℕ → Result ℕ
pack_slot tag descriptor descriptor_bits = do
  raise_if (leb (1 <<< descriptor_bits) descriptor) value_error
  ok (bit_or (tag <<< descriptor_bits) descriptor)

-- The public sizes of a table.
pub record TableShape : Type 0 where
  pub buckets : ℕ
  pub slots : ℕ
  pub owner_count : ℕ
  pub descriptor_bits : ℕ

abbrev pub width : TableShape → ℕ
width s = s.owner_count * s.slots

-- One key of an owner: its place in its bucket, and the packed slot there.
unfoldable pub place_slot :
    TableShape → ℕ → ℕ → ℕ → List ℕ → List (ℕ × ℕ) → Result (List ℕ × List (ℕ × ℕ))
place_slot s owner_index tag descriptor table filled = do
  raise_if (tag == 0) value_error
  bucket ← bucket_of tag s.buckets
  let used = filled_of bucket filled
  raise_if (leb s.slots used) value_error
  packed ← pack_slot tag descriptor s.descriptor_bits
  next ← set_item table (bucket * width s + (owner_index * s.slots + used)) packed
  ok (next, insert bucket (used + 1) filled)

unfoldable pub fill_table : TableShape → ℕ → List (ℕ × ℕ) → List ℕ → List (ℕ × ℕ) → Result (List ℕ)
fill_table s owner_index [] table filled = ok table
fill_table s owner_index ((tag, descriptor) ∷ keyed) table filled = do
  (next, used) ← place_slot s owner_index tag descriptor table filled
  fill_table s owner_index keyed next used

-- `sorted(keyed_descriptors.items())`
abbrev pub item_le : ℕ × ℕ → ℕ × ℕ → Bool
item_le a b = ltb a.0 b.0 || (a.0 == b.0 && leb a.1 b.1)

unfoldable pub build_owner_table : TableShape → ℕ → List (ℕ × ℕ) → Result (List ℕ)
build_owner_table s owner_index keyed_descriptors =
    fill_table s owner_index (sort_by item_le keyed_descriptors) (replicate (s.buckets * width s) 0)
      []

unfoldable pub slot_columns : ℕ → ℕ → List ℕ
slot_columns owner_index slots = range_from (owner_index * slots) slots

-- `sum(table[position] for table in tables)`
unfoldable pub sum_at : ℕ → List (List ℕ) → Result ℕ
sum_at position [] = ok 0
sum_at position (table ∷ tables) = do
  cell ← get_item table position
  rest ← sum_at position tables
  ok (cell + rest)

-- The loop over the columns of one owner; a later match takes the place of an earlier one.
unfoldable pub scan_columns : TableShape → List (List ℕ) → ℕ → ℕ → List ℕ → ℕ → Result ℕ
scan_columns s tables tag bucket [] found = ok found
scan_columns s tables tag bucket (column ∷ columns) found = do
  packed ← sum_at (bucket * width s + column) tables
  scan_columns s tables tag bucket columns (
      if not (packed == 0) && (packed >>> s.descriptor_bits == tag)
      then bit_and packed ((1 <<< s.descriptor_bits) - 1)
      else found)

unfoldable pub lookup_cleartext : TableShape → List (List ℕ) → ℕ → Result (List ℕ)
lookup_cleartext s tables tag = do
  bucket ← bucket_of tag s.buckets
  map_result (λ owner. scan_columns s tables tag bucket (slot_columns owner s.slots) 0)
      (range_from 0 s.owner_count)
