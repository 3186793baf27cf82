-- ===== src/VolumeHiding.antt =====
-- doram_t2_3pc/volume_hiding.py: the pages of all owners in one permuted array. The results of the
-- random generator are an argument. The cost estimate (floating point numbers) and the text of the
-- circuit are not modelled.
pub mod Permutation
pub mod Read
pub mod Windows
pub mod Concatenated
use fed_kg_rag_secure_impl.Prelude.{
  ℕ, zero, suc, ◌+◌, ◌-◌, Bool, true, false, Option, none, some, List, [], ◌∷◌, ◌++◌, map, not, leb,
  ◌==◌, length, replicate, if◌then◌else◌,
}
use fed_kg_rag_secure_impl.Python.{
  Result, ok, err, value_error, ◌>>=◌, ◌>>◌, raise_if, map_result, lookup, nat_key, contains,
}
use fed_kg_rag_secure_impl.Python.Sequence.{get_item, set_item, sort_by, keys_of}
use fed_kg_rag_secure_impl.Config.{range_from, sorted, same_list}

abbrev pub Page : Type 0
Page = List ℕ

-- A position in the pool and a page count for each key.
abbrev pub Descriptors : Type 0
Descriptors = List (ℕ × (ℕ × ℕ))

pub record PooledLayout : Type 0 where
  pub pages : List Page
  pub descriptors : Descriptors
  pub owner_count : ℕ
  pub total_pages : ℕ

-- `[items[base + offset] for offset in range(count)]`
unfoldable pub window {ℓ} : {A : Type ℓ} → List A → ℕ → ℕ → Result (List A)
window items base count = map_result (λ offset. get_item items (base + offset)) (range_from 0 count)

unfoldable pub read_descriptor : List Page → Option (ℕ × ℕ) → Result (Option (List Page))
read_descriptor pages none = ok none
read_descriptor pages (some (base, count)) = do found ← window pages base count; ok (some found)

unfoldable pub read : PooledLayout → ℕ → Result (Option (List Page))
read layout key = read_descriptor layout.pages (lookup key layout.descriptors)

-- The three lists that the concatenation fills.
pub record Pool : Type 0 where
  pub pool : List Page
  pub descriptors : Descriptors
  pub provenance : List ℕ

unfoldable pub add_key : ℕ → ℕ → List Page → Pool → Result Pool
add_key owner_index key [] p = ok p
add_key owner_index key (page ∷ pages) p = do
  raise_if (contains key (keys_of p.descriptors)) value_error
  ok record {
    pool = p.pool ++ page ∷ pages;
    descriptors = p.descriptors ++ (key, (length p.pool, length (page ∷ pages))) ∷ [];
    provenance = p.provenance ++ replicate (length (page ∷ pages)) owner_index;
  }

unfoldable pub add_keys : ℕ → List (ℕ × List Page) → Pool → Result Pool
add_keys owner_index [] p = ok p
add_keys owner_index ((key, pages) ∷ rest) p = do
  next ← add_key owner_index key pages p
  add_keys owner_index rest next

-- `for key in sorted(pages_by_key)`
abbrev pub pages_le : ℕ × List Page → ℕ × List Page → Bool
pages_le a b = leb a.0 b.0

unfoldable pub add_owners : ℕ → List (List (ℕ × List Page)) → Pool → Result Pool
add_owners owner_index [] p = ok p
add_owners owner_index (pages_by_key ∷ owners) p = do
  next ← add_keys owner_index (sort_by pages_le pages_by_key) p
  add_owners (owner_index + 1) owners next

abbrev pub empty_pool : Pool
empty_pool = record { pool = []; descriptors = []; provenance = [] }

unfoldable pub concatenate_owner_pools : List (List (ℕ × List Page)) → Result Pool
concatenate_owner_pools owner_pages = add_owners 0 owner_pages empty_pool

-- `for original, target in enumerate(permutation): moved[target] = items[original]`
unfoldable pub move_items {ℓ} : {A : Type ℓ} → List A → ℕ → List ℕ → List A → Result (List A)
move_items items original [] moved = ok moved
move_items items original (target ∷ permutation) moved = do
  item ← get_item items original
  next ← set_item moved target item
  move_items items (original + 1) permutation next

-- The descriptor of one key after the permutation.
unfoldable pub remap_descriptor : List ℕ → ℕ × ℕ → Result (ℕ × ℕ)
remap_descriptor permutation (base, count) = do
  targets ← window permutation base count
  first ← get_item targets 0
  raise_if (not (same_list targets (range_from first count))) value_error
  ok (first, count)

-- The keys of a dictionary are distinct, so the new dictionary has the same keys in the same order.
unfoldable pub remap_all : List ℕ → Descriptors → Result Descriptors
remap_all permutation [] = ok []
remap_all permutation ((key, descriptor) ∷ descriptors) = do
  remapped ← remap_descriptor permutation descriptor
  rest ← remap_all permutation descriptors
  ok ((key, remapped) ∷ rest)

unfoldable pub apply_permutation : List Page → Descriptors → List ℕ → Result PooledLayout
apply_permutation pool descriptors permutation = do
  raise_if (not (same_list (sorted permutation) (range_from 0 (length pool)))) value_error
  permuted ← move_items pool 0 permutation (replicate (length pool) [])
  remapped ← remap_all permutation descriptors
  ok record { pages = permuted; descriptors = remapped; owner_count = 0; total_pages = length pool }

-- `order[i], order[j] = order[j], order[i]`
unfoldable pub swap_items : List ℕ → ℕ → ℕ → Result (List ℕ)
swap_items order i j = do
  a ← get_item order i
  b ← get_item order j
  next ← set_item order i b
  set_item next j a

-- The shuffle; `draws i` is the result of `generator.randrange(i + 1)`.
unfoldable pub shuffle_from : (ℕ → ℕ) → ℕ → List ℕ → Result (List ℕ)
shuffle_from draws zero order = ok order
shuffle_from draws (suc i) order = do
  next ← swap_items order (suc i) (draws (suc i))
  shuffle_from draws i next

-- `for offset in range(count): permutation[base + offset] = cursor + offset`
unfoldable pub place_block : List ℕ → ℕ → ℕ → List ℕ → Result (List ℕ)
place_block permutation base cursor [] = ok permutation
place_block permutation base cursor (offset ∷ offsets) = do
  next ← set_item permutation (base + offset) (cursor + offset)
  place_block next base cursor offsets

unfoldable pub place_in_order : List (ℕ × (ℕ × ℕ)) → List ℕ → List ℕ → ℕ → Result (List ℕ × ℕ)
place_in_order blocks [] permutation cursor = ok (permutation, cursor)
place_in_order blocks (block_position ∷ order) permutation cursor = do
  (_, (base, count)) ← get_item blocks block_position
  next ← place_block permutation base cursor (range_from 0 count)
  place_in_order blocks order next (cursor + count)

abbrev pub base_le : ℕ × (ℕ × ℕ) → ℕ × (ℕ × ℕ) → Bool
base_le a b = leb a.1.0 b.1.0

unfoldable pub block_permutation : Descriptors → ℕ → (ℕ → ℕ) → Result (List ℕ)
block_permutation descriptors size draws = do
  let blocks = sort_by base_le descriptors
  order ← shuffle_from draws (length blocks - 1) (range_from 0 (length blocks))
  (permutation, cursor) ← place_in_order blocks order (replicate size 0) 0
  raise_if (not (cursor == size)) value_error
  ok permutation

unfoldable pub provenance_after : List ℕ → List ℕ → Result (List ℕ)
provenance_after permutation provenance =
    move_items provenance 0 permutation (replicate (length provenance) 0)
