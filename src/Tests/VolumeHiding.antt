-- ===== src/Tests/VolumeHiding.antt =====
-- Runs and instances of the pooled pages: two owners, three keys, four pages.
use fed_kg_rag_secure_impl.Prelude.{ℕ, ◌≡◌, refl, List, [], ◌∷◌, All, suc, zero}
use fed_kg_rag_secure_impl.Python.{ok, err, value_error}
use fed_kg_rag_secure_impl.Python.Sequence.{sort_by}
use fed_kg_rag_secure_impl.Config.{sorted}
use fed_kg_rag_secure_impl.VolumeHiding.{
  Page, PooledLayout, Pool, concatenate_owner_pools, add_owners, add_keys, add_key,
  apply_permutation, move_items, remap_all, remap_descriptor, window, read, block_permutation,
  shuffle_from, swap_items, place_in_order, place_block, provenance_after,
}
use fed_kg_rag_secure_impl.VolumeHiding.Read.{unpermuted, read-apply_permutation}
use fed_kg_rag_secure_impl.VolumeHiding.Concatenated.{ReadsItem, apply_permutation-ReadsItem}

abbrev first_owner : List (ℕ × List Page)
first_owner = (9, (1 ∷ []) ∷ (2 ∷ []) ∷ []) ∷ (4, (3 ∷ []) ∷ []) ∷ []

abbrev second_owner : List (ℕ × List Page)
second_owner = (7, (5 ∷ []) ∷ []) ∷ (8, []) ∷ []

abbrev owners : List (List (ℕ × List Page))
owners = first_owner ∷ second_owner ∷ []

abbrev pooled : Pool
pooled = record {
  pool = (3 ∷ []) ∷ (1 ∷ []) ∷ (2 ∷ []) ∷ (5 ∷ []) ∷ [];
  descriptors = (4, (0, 1)) ∷ (9, (1, 2)) ∷ (7, (3, 1)) ∷ [];
  provenance = 0 ∷ 0 ∷ 0 ∷ 1 ∷ [];
}

abbrev permutation : List ℕ
permutation = 1 ∷ 2 ∷ 3 ∷ 0 ∷ []

abbrev layout : PooledLayout
layout = record {
  pages = (5 ∷ []) ∷ (3 ∷ []) ∷ (1 ∷ []) ∷ (2 ∷ []) ∷ [];
  descriptors = (4, (1, 1)) ∷ (9, (2, 2)) ∷ (7, (0, 1)) ∷ [];
  owner_count = 0;
  total_pages = 4;
}

-- The draws of the shuffle: one for the last block, zero for the next.
abbrev draws : ℕ → ℕ
draws zero = 0
draws (suc zero) = 0
draws (suc (suc i)) = 1

pool_run : concatenate_owner_pools owners ≡ ok pooled
unfolding concatenate_owner_pools add_owners add_keys add_key sort_by
pool_run = refl

shuffle_run : block_permutation pooled.descriptors 4 draws ≡ ok permutation
unfolding block_permutation shuffle_from swap_items place_in_order place_block sort_by
shuffle_run = refl

layout_run : apply_permutation pooled.pool pooled.descriptors permutation ≡ ok layout
unfolding apply_permutation move_items remap_all remap_descriptor window sorted
layout_run = refl

owners_run : provenance_after permutation pooled.provenance ≡ ok (1 ∷ 0 ∷ 0 ∷ 0 ∷ [])
unfolding provenance_after move_items
owners_run = refl

-- A permutation that splits the pages of a key is refused.
split_run : apply_permutation pooled.pool pooled.descriptors (1 ∷ 2 ∷ 0 ∷ 3 ∷ []) ≡ err value_error
unfolding apply_permutation move_items remap_all remap_descriptor window sorted
split_run = refl

read-apply_permutation_example : read layout 9 ≡ read (unpermuted pooled.pool pooled.descriptors) 9
read-apply_permutation_example =
    read-apply_permutation pooled.pool pooled.descriptors permutation 9 layout_run

apply_permutation-ReadsItem_example : All (All (ReadsItem layout)) owners
apply_permutation-ReadsItem_example =
    apply_permutation-ReadsItem owners permutation pool_run layout_run
