-- ===== src/Tests/Oram.antt =====
-- Runs and instances of doram_t2_3pc/oram_layout.py.
use fed_kg_rag_secure_impl.Prelude.{ℕ, length, ◌+◌, ◌/◌, ◌%◌, ◌≡◌, refl, List, [], ◌∷◌, some, arith}
use fed_kg_rag_secure_impl.Python.{ok, err, value_error, ◌>>=◌}
use fed_kg_rag_secure_impl.Oram.{
  build_owner_oram_tree, entry_width, build_owner_oram_stack, build_levels, pack_labels, place,
  occupy, write_buckets, write_bucket, write_entry, write_values, write_field, find_entry,
  find_slot, entry, path_buckets, climb, path_slots, bucket_slots, stack_lookup, walk_down,
  stack_size, level_index,
}
use fed_kg_rag_secure_impl.Oram.Levels.{build_levels_fuel}
use fed_kg_rag_secure_impl.Oram.Groups.{HoldsLabel, pack_labels-HoldsLabel}
use fed_kg_rag_secure_impl.Oram.Paths.{IsPath, path_buckets-IsPath}

abbrev shape : ℕ → ℕ × ℕ
shape size = (size, 1)

abbrev leaf_of : ℕ → ℕ → ℕ
leaf_of attempt index = (attempt + index) % 2

abbrev values : List (List ℕ)
values = (10 ∷ 11 ∷ []) ∷ (20 ∷ 21 ∷ []) ∷ (30 ∷ 31 ∷ []) ∷ []

read_two :
    (build_owner_oram_tree shape leaf_of 64 values >>= λ t. find_entry t 2)
    ≡ ok (some (30 ∷ 31 ∷ []))
unfolding build_owner_oram_tree entry_width place occupy write_buckets write_bucket write_entry
    write_values write_field find_entry find_slot entry path_buckets climb path_slots bucket_slots
read_two = refl

read_stack :
    (build_owner_oram_stack shape (λ level. leaf_of) 2 2 values >>= λ s. stack_lookup s 2)
    ≡ ok (some (30 ∷ 31 ∷ []))
unfolding build_owner_oram_stack build_levels pack_labels build_owner_oram_tree entry_width place
    occupy write_buckets write_bucket write_entry write_values write_field find_entry find_slot
    entry path_buckets climb path_slots bucket_slots stack_lookup walk_down stack_size level_index
read_stack = refl

too_small : build_owner_oram_tree shape leaf_of 64 ((1 ∷ []) ∷ []) ≡ err value_error
unfolding build_owner_oram_tree entry_width
too_small = refl

path_buckets-IsPath_example : (path : List ℕ) × (path_buckets 2 2 ≡ ok path) × IsPath 2 2 path
path_buckets-IsPath_example = path_buckets-IsPath 2 2 (omega arith)

build_levels_fuel_example :
    build_levels shape (λ level. leaf_of) 2 2 0 3 values
    ≡ build_levels shape (λ level. leaf_of) 2 2 0 5 values
build_levels_fuel_example =
    build_levels_fuel shape (λ level. leaf_of) 2 2 (omega arith) 0 3 5 values (omega arith)
      (omega arith)

abbrev labels : List ℕ
labels = 4 ∷ 5 ∷ 6 ∷ []

pack_labels-HoldsLabel_example :
    HoldsLabel 2 (pack_labels 2 (length labels) labels) labels (2 / 2) (2 % 2) 2
pack_labels-HoldsLabel_example = pack_labels-HoldsLabel 2 labels 2 (omega arith) (omega arith)
