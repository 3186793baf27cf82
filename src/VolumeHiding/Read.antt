-- ===== src/VolumeHiding/Read.antt =====
-- volume_hiding.py, `PooledLayout.read`: reading before and after `apply_permutation`.
use fed_kg_rag_secure_impl.Prelude.{
  ℕ, zero, suc, ◌+◌, ◌<◌, ◌≤◌, ◌≡◌, ap, refl, sym, subst, ◌∙◌, arith, Bool-cases, inl, inr, true,
  not, List, [], ◌∷◌, none, some, length, replicate, get_elem?, ◌==◌,
}
use fed_kg_rag_secure_impl.Python.{
  Result, ok, value_error, ◌>>=◌, >>=-eq-ok, ok-injective, raise_if, map_result, map_result-cons,
  lookup, nat_key,
}
use fed_kg_rag_secure_impl.Python.Sequence.{get_item, get_item-get_elem?}
use fed_kg_rag_secure_impl.Config.{range_from, sorted, same_list}
use fed_kg_rag_secure_impl.Config.Sorted.{same_list→eq, accepted-Distinct}
use fed_kg_rag_secure_impl.VolumeHiding.{
  Page, Descriptors, PooledLayout, window, read, read_descriptor, move_items, remap_descriptor,
  remap_all, apply_permutation,
}
use fed_kg_rag_secure_impl.VolumeHiding.Permutation.{move_items_lem}

-- The pool before any permutation.
abbrev pub unpermuted : List Page → Descriptors → PooledLayout
unpermuted pool descriptors = record {
  pages = pool;
  descriptors = descriptors;
  owner_count = 0;
  total_pages = length pool;
}

module _ {ℓ} {A : Type ℓ} where
  -- Two loops over a range with the same results.
  map_result-range_from :
      (f g : ℕ → Result A) (lo n : ℕ)
      → ((k : ℕ) → lo ≤ k → k < lo + n → f k ≡ g k)
      → map_result f (range_from lo n) ≡ map_result g (range_from lo n)
  map_result-range_from f g lo zero h = refl
  map_result-range_from f g lo (suc n) h =
      rw
        (
          h lo (omega arith) (omega arith),
          map_result-range_from f g (lo + 1) n (λ k p q. h k (omega arith) (omega arith)),
        )
        refl

  get_item_same :
      (xs ys : List A) (i j : ℕ) → get_elem? xs i ≡ get_elem? ys j → get_item xs i ≡ get_item ys j
  get_item_same xs ys i j h = rw h refl

  pub window_same :
      (xs ys : List A) (i j count : ℕ)
      → ((k : ℕ) → k < count → get_elem? xs (i + k) ≡ get_elem? ys (j + k))
      → window xs i count ≡ window ys j count
  unfolding window
  window_same xs ys i j count h =
      map_result-range_from (λ k. get_item xs (i + k)) (λ k. get_item ys (j + k)) 0 count
        (λ k p q. get_item_same xs ys (i + k) (j + k) (h k (omega arith)))

-- What a window of consecutive numbers reads.
window-range :
    (items : List ℕ) (base lo n first : ℕ)
    → map_result (λ offset. get_item items (base + offset)) (range_from lo n)
      ≡ ok (range_from first n)
    → (k : ℕ) → k < n
    → get_elem? items (base + (lo + k)) ≡ some (first + k)
window-range items base lo zero first h k small = absurd (omega arith)
window-range items base lo (suc n) first h k small =
    let (head, tail) =
      map_result-cons (λ offset. get_item items (base + offset)) lo (range_from (lo + 1) n) first
        (range_from (first + 1) n) h in
    go k small (get_item-get_elem? items (base + lo) head)
      (λ j s. window-range items base (lo + 1) n (first + 1) tail j s)
  where
    go :
        (j : ℕ)
        → j < suc n
        → get_elem? items (base + lo) ≡ some first
        → ((i : ℕ) → i < n → get_elem? items (base + (lo + 1 + i)) ≡ some (first + 1 + i))
        → get_elem? items (base + (lo + j)) ≡ some (first + j)
    go zero s here rest =
        ap (λ (x : ℕ). get_elem? items x) (omega arith) ∙ here ∙ ap some (omega arith)
    go (suc j) s here rest =
        ap (λ (x : ℕ). get_elem? items x) (omega arith)
        ∙ rest j (omega arith)
        ∙ ap some (omega arith)

-- A remapped descriptor addresses the targets of its pages.
remap_descriptor_lem :
    (permutation : List ℕ) (base count : ℕ) {d : ℕ × ℕ}
    → remap_descriptor permutation (base, count) ≡ ok d
    → (d.1 ≡ count) × ((k : ℕ) → k < count → get_elem? permutation (base + k) ≡ some (d.0 + k))
unfolding remap_descriptor window
remap_descriptor_lem permutation base count {d} h =
    let (targets, run, h1) =
      >>=-eq-ok (map_result (λ offset. get_item permutation (base + offset)) (range_from 0 count)) _
        h in
    let (first, start, h2) = >>=-eq-ok (get_item targets 0) _ h1 in
    let (u, same, h3) =
      >>=-eq-ok (raise_if (not (same_list targets (range_from first count))) value_error) _ h2 in
    let pair = ok-injective h3 in
    let test : same_list targets (range_from first count) ≡ true = ground arith in
    let reads =
      subst
        (λ l.
          map_result (λ offset. get_item permutation (base + offset)) (range_from 0 count) ≡ ok l)
        (same_list→eq targets (range_from first count) test) run in
    (
      sym (ap (λ p. p.1) pair),
      λ k small.
          ap (λ (x : ℕ). get_elem? permutation x) (omega arith)
          ∙ window-range permutation base 0 count first reads k small
          ∙ ap (λ (f : ℕ). some (f + k)) (ap (λ p. p.0) pair),
    )

-- A key has a descriptor in both dictionaries, or in neither.
data Remapped (permutation : List ℕ) (key : ℕ) (descriptors remapped : Descriptors) : Type 0 where
  absent :
      lookup key descriptors ≡ none
      → lookup key remapped ≡ none
      → Remapped permutation key descriptors remapped
  present :
      (d e : ℕ × ℕ)
      → lookup key descriptors ≡ some d
      → lookup key remapped ≡ some e
      → remap_descriptor permutation d ≡ ok e
      → Remapped permutation key descriptors remapped

remap_all-Remapped :
    (permutation : List ℕ) (descriptors : Descriptors) (key : ℕ) {remapped : Descriptors}
    → remap_all permutation descriptors ≡ ok remapped
    → Remapped permutation key descriptors remapped
unfolding remap_all
remap_all-Remapped permutation [] key h = absent refl (ap (lookup key) (sym (ok-injective h)))
remap_all-Remapped permutation ((name, d) ∷ descriptors) key h =
    let (e, run, h1) = >>=-eq-ok (remap_descriptor permutation d) _ h in
    let (rest, more, h2) = >>=-eq-ok (remap_all permutation descriptors) _ h1 in
    subst (Remapped permutation key ((name, d) ∷ descriptors)) (ok-injective h2)
      (elim (Bool-cases (key == name)) [
        | inl same ↦ present d e (rw same refl) (rw same refl) run
        | inr other ↦ elim (remap_all-Remapped permutation descriptors key more) [
          | absent a b ↦ absent (rw other a) (rw other b)
          | present f g a b r ↦ present f g (rw other a) (rw other b) r
        ]
      ])

-- When `apply_permutation` accepts a pool, its descriptors and a permutation, reading any key in
-- the pooled layout gives the same result, pages, no pages or an exception, as reading it in the
-- pool before the permutation.
pub read-apply_permutation :
    (pool : List Page) (descriptors : Descriptors) (permutation : List ℕ) (key : ℕ)
    {layout : PooledLayout}
    → apply_permutation pool descriptors permutation ≡ ok layout
    → read layout key ≡ read (unpermuted pool descriptors) key
unfolding apply_permutation read read_descriptor
read-apply_permutation pool descriptors permutation key {layout} h =
    let (u, same, h1) =
      >>=-eq-ok
        (raise_if (not (same_list (sorted permutation) (range_from 0 (length pool)))) value_error) _
        h in
    let (permuted, moves, h2) =
      >>=-eq-ok (move_items pool 0 permutation (replicate (length pool) [])) _ h1 in
    let (remapped, maps, h3) = >>=-eq-ok (remap_all permutation descriptors) _ h2 in
    let distinct = accepted-Distinct permutation 0 (length pool) (ground arith) in
    let moved : (d : ℕ × ℕ) (e : ℕ × ℕ)
        → remap_descriptor permutation d ≡ ok e
        → window permuted e.0 e.1 ≡ window pool d.0 d.1 =
      λ d e run.
        let (count, targets) = remap_descriptor_lem permutation d.0 d.1 run in
        subst (λ (c : ℕ). window permuted e.0 c ≡ window pool d.0 d.1) (sym count)
          (window_same permuted pool e.0 d.0 d.1 (λ k small.
            move_items_lem pool 0 permutation (replicate (length pool) []) (d.0 + k) distinct moves
              (targets k small)
            ∙ ap (get_elem? pool) (omega arith))) in
    subst (λ l. read l key ≡ read (unpermuted pool descriptors) key) (ok-injective h3)
      (elim (remap_all-Remapped permutation descriptors key maps) [
        | absent a b ↦ ap (read_descriptor permuted) b ∙ sym (ap (read_descriptor pool) a)
        | present d e a b run ↦
            ap (read_descriptor permuted) b
            ∙ ap (λ m. m >>= λ found. ok (some found)) (moved d e run)
            ∙ sym (ap (read_descriptor pool) a)
      ])
