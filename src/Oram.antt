-- ===== src/Oram.antt =====
-- doram_t2_3pc/oram_layout.py: the tree that an owner builds in the clear, its recursive position
-- map and the reading of both. `tree_shape` computes the bucket size and the depth with floating
-- point logarithms, so the shape of a size is an argument; the draws of the random generator are an
-- argument too.
pub mod Paths
pub mod Groups
pub mod Levels
use fed_kg_rag_secure_impl.Prelude.{
  ℕ, zero, suc, ◌+◌, ◌-◌, ◌*◌, ◌/◌, ◌%◌, ◌^◌, Bool, true, false, Option, none, some, List, [], ◌∷◌,
  ◌++◌, map, not, ltb, leb, ◌==◌, ◌&&◌, ◌||◌, length, take, drop, replicate, if◌then◌else◌,
}
use fed_kg_rag_secure_impl.Python.{
  Result, ok, err, value_error, assertion_error, index_error, ◌>>=◌, ◌>>◌, raise_if, map_result,
  lookup, insert, nat_key,
}
use fed_kg_rag_secure_impl.Python.Sequence.{get_item, set_item, max_default, any_of}
use fed_kg_rag_secure_impl.Config.{range_from}

pub record OwnerOramTree : Type 0 where
  pub size : ℕ
  pub bucket_size : ℕ
  pub depth : ℕ
  pub value_length : ℕ
  pub fields : List (List ℕ)
  pub position_map : List ℕ

unfoldable pub n_buckets : OwnerOramTree → ℕ
n_buckets t = 2 ^ (t.depth + 1)

unfoldable pub slots : OwnerOramTree → ℕ
unfolding n_buckets
slots t = n_buckets t * t.bucket_size

unfoldable pub field_count : OwnerOramTree → ℕ
field_count t = length t.fields

unfoldable pub bucket_slots : OwnerOramTree → ℕ → List ℕ
bucket_slots t bucket = range_from (bucket * t.bucket_size) t.bucket_size

unfoldable pub flat_values : List (List ℕ) → List ℕ
flat_values [] = []
flat_values (column ∷ fields) = column ++ flat_values fields

unfoldable pub entry : OwnerOramTree → ℕ → Result (List ℕ)
entry t slot = map_result (λ column. get_item column slot) t.fields

abbrev pub Occupancy : Type 0
Occupancy = List (ℕ × List ℕ)

abbrev with_index : Option (List ℕ) → ℕ → List ℕ
with_index none index = index ∷ []
with_index (some indices) index = indices ++ index ∷ []

-- `occupancy.setdefault(leaf, []).append(index)` for each index of the assignment.
unfoldable pub occupy : ℕ → List ℕ → Occupancy → Occupancy
occupy index [] occupancy = occupancy
occupy index (leaf ∷ assignment) occupancy =
    occupy (index + 1) assignment (insert leaf (with_index (lookup leaf occupancy) index) occupancy)

abbrev pub bucket_sizes : Occupancy → List ℕ
bucket_sizes [] = []
bucket_sizes ((leaf, indices) ∷ occupancy) = length indices ∷ bucket_sizes occupancy

-- The attempts: attempt `n` draws the leaf `draw n index` for each index.
unfoldable pub place : (ℕ → ℕ → ℕ) → ℕ → ℕ → ℕ → ℕ → Result (List ℕ × Occupancy)
unfolding occupy
place draw size bucket_size attempt zero = err value_error
place draw size bucket_size attempt (suc more) =
    let assignment = map (draw attempt) (range_from 0 size) in
    let rest = place draw size bucket_size (attempt + 1) more in
    if leb (max_default 0 (bucket_sizes (occupy 0 assignment []))) bucket_size
    then ok (assignment, occupy 0 assignment [])
    else rest

-- `fields[column][slot] = value`
unfoldable pub write_field : List (List ℕ) → ℕ → ℕ → ℕ → Result (List (List ℕ))
write_field fields column slot value = do
  old ← get_item fields column
  new ← set_item old slot value
  set_item fields column new

unfoldable pub write_values : List ℕ → ℕ → ℕ → List (List ℕ) → Result (List (List ℕ))
unfolding write_field
write_values [] column slot fields = ok fields
write_values (value ∷ entry) column slot fields = do
  next ← write_field fields column slot value
  write_values entry (column + 1) slot next

-- One entry of a bucket: not empty, its logical index, its leaf, its values.
unfoldable pub write_entry : List (List ℕ) → ℕ → ℕ → ℕ → List (List ℕ) → Result (List (List ℕ))
unfolding write_field write_values
write_entry values leaf slot logical fields = do
  first ← write_field fields 0 slot 0
  second ← write_field first 1 slot logical
  third ← write_field second 2 slot leaf
  entry ← get_item values logical
  write_values entry 3 slot third

unfoldable pub write_bucket :
    List (List ℕ) → ℕ → ℕ → List ℕ → List (List ℕ) → Result (List (List ℕ))
unfolding write_entry
write_bucket values leaf slot [] fields = ok fields
write_bucket values leaf slot (logical ∷ indices) fields = do
  next ← write_entry values leaf slot logical fields
  write_bucket values leaf (slot + 1) indices next

unfoldable pub write_buckets :
    List (List ℕ) → ℕ → ℕ → Occupancy → List (List ℕ) → Result (List (List ℕ))
unfolding write_bucket
write_buckets values leaves bucket_size [] fields = ok fields
write_buckets values leaves bucket_size ((leaf, indices) ∷ occupancy) fields = do
  next ← write_bucket values leaf ((leaf + leaves) * bucket_size) indices fields
  write_buckets values leaves bucket_size occupancy next

-- Every slot starts empty.
abbrev empty_fields : ℕ → ℕ → List (List ℕ)
empty_fields width count = replicate count 1 ∷ replicate (2 + width) (replicate count 0)

-- The checks of the values, with the number of values in an entry.
unfoldable pub entry_width : List (List ℕ) → Result ℕ
entry_width values = do
  raise_if (ltb (length values) 2) value_error
  first ← get_item values 0
  raise_if (ltb (length first) 1) value_error
  raise_if (any_of (λ value. not (length value == length first)) values) value_error
  ok (length first)

unfoldable pub build_owner_oram_tree :
    (ℕ → ℕ × ℕ) → (ℕ → ℕ → ℕ) → ℕ → List (List ℕ) → Result OwnerOramTree
unfolding entry_width place write_buckets
build_owner_oram_tree shape draw max_attempts values = do
  let size = length values
  width ← entry_width values
  let (bucket_size, depth) = shape size
  (assignment, occupancy) ← place draw size bucket_size 0 max_attempts
  fields ←
      write_buckets values (2 ^ depth) bucket_size occupancy
        (empty_fields width (2 ^ (depth + 1) * bucket_size))
  ok (record {
    size = size;
    bucket_size = bucket_size;
    depth = depth;
    value_length = width + 1;
    fields = fields;
    position_map = assignment;
  })

-- The loop of `path_buckets`, from the leaf's bucket up; the bucket number is fuel enough, since it
-- is halved until it is zero.
unfoldable pub climb : ℕ → ℕ → List ℕ
climb zero bucket = []
climb (suc fuel) bucket =
    let above = climb fuel (bucket / 2) in if bucket == 0 then [] else bucket ∷ above

abbrev pub reversed_onto {ℓ} : {A : Type ℓ} → List A → List A → List A
reversed_onto [] ys = ys
reversed_onto (x ∷ xs) ys = reversed_onto xs (x ∷ ys)

unfoldable pub path_buckets : ℕ → ℕ → Result (List ℕ)
unfolding climb
path_buckets leaf depth = do
  raise_if (not (ltb leaf (2 ^ depth))) value_error
  ok (reversed_onto (climb (leaf + 2 ^ depth) (leaf + 2 ^ depth)) [])

-- The slots that one access looks at, in its order.
unfoldable pub path_slots : OwnerOramTree → List ℕ → List ℕ
unfolding bucket_slots
path_slots t [] = []
path_slots t (bucket ∷ path) = bucket_slots t bucket ++ path_slots t path

-- The first slot that is not empty and holds the logical index, with its values.
unfoldable pub find_slot : OwnerOramTree → ℕ → List ℕ → Result (Option (List ℕ))
unfolding entry
find_slot t logical [] = ok none
find_slot t logical (slot ∷ rest) = do
  fields ← entry t slot
  empty ← get_item fields 0
  index ← get_item fields 1
  let later = find_slot t logical rest
  if empty == 0 && index == logical then ok (some (drop 3 fields)) else later

unfoldable pub find_entry : OwnerOramTree → ℕ → Result (Option (List ℕ))
unfolding path_buckets path_slots find_slot
find_entry t logical_index = do
  raise_if (not (ltb logical_index t.size)) value_error
  leaf ← get_item t.position_map logical_index
  path ← path_buckets leaf t.depth
  find_slot t logical_index (path_slots t path)

pub record OwnerOramStack : Type 0 where
  pub levels : List OwnerOramTree
  pub base : List ℕ
  pub chi : ℕ

unfoldable pub stack_size : OwnerOramStack → Result ℕ
stack_size s = do t ← get_item s.levels 0; ok t.size

unfoldable pub level_index : OwnerOramStack → ℕ → ℕ → ℕ
level_index s logical_index level = logical_index / s.chi ^ level

unfoldable pub shared_values : OwnerOramStack → ℕ
unfolding slots field_count
shared_values s = sum_trees s.levels + length s.base
  where
    sum_trees : List OwnerOramTree → ℕ
    sum_trees [] = 0
    sum_trees (t ∷ trees) = slots t * field_count t + sum_trees trees

-- The labels in groups of `chi`, the last padded with zeros; the number of labels is fuel enough.
unfoldable pub pack_labels : ℕ → ℕ → List ℕ → List (List ℕ)
pack_labels chi fuel [] = []
pack_labels chi zero (label ∷ labels) = []
pack_labels chi (suc fuel) (label ∷ labels) =
    let group = take chi (label ∷ labels) in
    (group ++ replicate (chi - length group) 0) ∷ pack_labels chi fuel (drop chi (label ∷ labels))

abbrev add_level :
    OwnerOramTree → Result (List OwnerOramTree × List ℕ) → Result (List OwnerOramTree × List ℕ)
add_level tree deeper = do (levels, base) ← deeper; ok (tree ∷ levels, base)

-- The loop over the levels; level `n` is drawn with `draw n`.
unfoldable pub build_levels :
    (ℕ → ℕ × ℕ)
    → (ℕ → ℕ → ℕ → ℕ)
    → ℕ
    → ℕ
    → ℕ
    → ℕ
    → List (List ℕ)
    → Result (List OwnerOramTree × List ℕ)
unfolding pack_labels
build_levels shape draw chi base_threshold level zero values = err value_error
build_levels shape draw chi base_threshold level (suc fuel) values = do
  tree ← build_owner_oram_tree shape (draw level) 64 values
  let labels = tree.position_map
  let deeper =
      build_levels shape draw chi base_threshold (level + 1) fuel
        (pack_labels chi (length labels) labels)
  if leb (length labels) base_threshold || leb (length labels) chi
      then ok (tree ∷ [], labels)
      else add_level tree deeper

unfoldable pub build_owner_oram_stack :
    (ℕ → ℕ × ℕ) → (ℕ → ℕ → ℕ → ℕ) → ℕ → ℕ → List (List ℕ) → Result OwnerOramStack
unfolding build_levels
build_owner_oram_stack shape draw chi base_threshold values = do
  raise_if (ltb chi 2) value_error
  raise_if (ltb base_threshold 2) value_error
  (levels, base) ← build_levels shape draw chi base_threshold 0 (length values) values
  ok (record { levels = levels; base = base; chi = chi })

-- The levels above the data tree, from the top down; `none` is an entry that is not found.
unfoldable pub walk_down : OwnerOramStack → ℕ → ℕ → ℕ → Result (Option ℕ)
unfolding level_index find_entry
walk_down s logical_index zero leaf = ok (some leaf)
walk_down s logical_index (suc below) leaf = do
  tree ← get_item s.levels (suc below)
  let index = level_index s logical_index (suc below)
  expected ← get_item tree.position_map index
  raise_if (not (expected == leaf)) assertion_error
  packed ← find_entry tree index
  elim packed [
    | none ↦ ok none
    | some labels ↦ (do
      next ← get_item labels (level_index s logical_index below % s.chi)
      walk_down s logical_index below next)
  ]

unfoldable pub stack_lookup : OwnerOramStack → ℕ → Result (Option (List ℕ))
unfolding walk_down stack_size level_index
stack_lookup s logical_index = do
  size ← stack_size s
  raise_if (not (ltb logical_index size)) value_error
  let top = length s.levels - 1
  first ← get_item s.base (level_index s logical_index top)
  found ← walk_down s logical_index top first
  elim found [
    | none ↦ ok none
    | some leaf ↦ (do
      tree ← get_item s.levels 0
      expected ← get_item tree.position_map logical_index
      raise_if (not (expected == leaf)) assertion_error
      find_entry tree logical_index)
  ]
