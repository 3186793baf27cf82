-- ===== src/VolumeHiding/Concatenated.antt =====
-- volume_hiding.py, `concatenate_owner_pools`: the pages of the keys of the owners.
use fed_kg_rag_secure_impl.Prelude.{
  ℕ, ◌+◌, ◌≡◌, ap, refl, subst, ◌∙◌, arith, inl, inr, ◌⊎◌, List, [], ◌∷◌, some, length, All,
}
use fed_kg_rag_secure_impl.Python.{
  ok, value_error, ◌>>=◌, >>=-eq-ok, ok-injective, raise_if, lookup, contains, nat_key,
}
use fed_kg_rag_secure_impl.Python.Sequence.{keys_of, sort_by, sort_by-All}
use fed_kg_rag_secure_impl.VolumeHiding.{
  Page, PooledLayout, Pool, window, read, read_descriptor, add_key, add_keys, add_owners,
  concatenate_owner_pools, pages_le, empty_pool, apply_permutation,
}
use fed_kg_rag_secure_impl.VolumeHiding.Read.{unpermuted, read-apply_permutation}
use fed_kg_rag_secure_impl.VolumeHiding.Windows.{
  lookup-append_some, lookup-append_new, window-append, window-append_all,
}

-- The pool holds the pages of a key.
record Holds (p : Pool) (key : ℕ) (pages : List Page) : Type 0 where
  base : ℕ
  found : lookup key p.descriptors ≡ some (base, length pages)
  reads : window p.pool base (length pages) ≡ ok pages

-- A step of the concatenation keeps what the pool holds.
Keeps : Pool → Pool → Type 0
Keeps p q = (key : ℕ) (pages : List Page) → Holds p key pages → Holds q key pages

Placed : Pool → ℕ × List Page → Type 0
Placed p item = (item.1 ≡ []) ⊎ Holds p item.0 item.1

Placed_keeps :
    (p q : Pool) (items : List (ℕ × List Page))
    → Keeps p q
    → All (Placed p) items
    → All (Placed q) items
unfolding Keeps Placed
Placed_keeps p q [] keeps h = tt
Placed_keeps p q (item ∷ items) keeps h = (
  elim h.0 [ inl nothing ↦ inl nothing | inr held ↦ inr (keeps item.0 item.1 held) ],
  Placed_keeps p q items keeps h.1,
)

add_key-Placed :
    (owner key : ℕ) (pages : List Page) (p : Pool) {q : Pool}
    → add_key owner key pages p ≡ ok q
    → Keeps p q × Placed q (key, pages)
unfolding add_key Keeps Placed
add_key-Placed owner key [] p h =
    (λ k l held. subst (λ q. Holds q k l) (ok-injective h) held, inl refl)
add_key-Placed owner key (page ∷ pages) p {q} h =
    let (u, fresh, h1) =
      >>=-eq-ok (raise_if (contains key (keys_of p.descriptors)) value_error) _ h in
    let e = ok-injective h1 in
    (
      λ k l held.
          subst (λ q. Holds q k l) e
            record {
              base = held.base;
              found = lookup-append_some k p.descriptors _ held.found;
              reads = window-append p.pool (page ∷ pages) held.base (length l) held.reads;
            },
      inr (
          subst (λ q. Holds q key (page ∷ pages)) e
            record {
              base = length p.pool;
              found = lookup-append_new key p.descriptors _ (ground arith);
              reads = window-append_all p.pool (page ∷ pages);
            }),
    )

add_keys-Placed :
    (owner : ℕ) (items : List (ℕ × List Page)) (p : Pool) {q : Pool}
    → add_keys owner items p ≡ ok q
    → Keeps p q × All (Placed q) items
unfolding add_keys Keeps Placed
add_keys-Placed owner [] p h = (λ k l held. subst (λ q. Holds q k l) (ok-injective h) held, tt)
add_keys-Placed owner ((key, pages) ∷ items) p {q} h =
    let (next, run, rest) = >>=-eq-ok (add_key owner key pages p) _ h in
    let (keeps, placed) = add_key-Placed owner key pages p run in
    let (more, others) = add_keys-Placed owner items next rest in
    (
      λ k l held. more k l (keeps k l held),
      ((Placed_keeps next q ((key, pages) ∷ []) more (placed, tt)).0, others),
    )

add_owners-Placed :
    (owner : ℕ) (owners : List (List (ℕ × List Page))) (p : Pool) {q : Pool}
    → add_owners owner owners p ≡ ok q
    → Keeps p q × All (All (Placed q)) owners
unfolding add_owners Keeps
add_owners-Placed owner [] p h = (λ k l held. subst (λ q. Holds q k l) (ok-injective h) held, tt)
add_owners-Placed owner (items ∷ owners) p {q} h =
    let (next, run, rest) = >>=-eq-ok (add_keys owner (sort_by pages_le items) p) _ h in
    let (keeps, placed) = add_keys-Placed owner (sort_by pages_le items) p run in
    let (more, others) = add_owners-Placed (owner + 1) owners next rest in
    (
      λ k l held. more k l (keeps k l held),
      (
        sort_by-All pages_le (Placed q) items
            (Placed_keeps next q (sort_by pages_le items) more placed),
        others,
      ),
    )

-- A key that has pages reads them.
unfoldable pub ReadsItem : PooledLayout → ℕ × List Page → Type 0
ReadsItem layout item = (item.1 ≡ []) ⊎ (read layout item.0 ≡ ok (some item.1))

Placed-ReadsItem :
    (p : Pool) (layout : PooledLayout) (owners : List (List (ℕ × List Page)))
    → ((key : ℕ) → read layout key ≡ read (unpermuted p.pool p.descriptors) key)
    → All (All (Placed p)) owners
    → All (All (ReadsItem layout)) owners
unfolding Placed ReadsItem read read_descriptor
Placed-ReadsItem p layout owners same h = all_owners owners h
  where
    item_reads : (item : ℕ × List Page) → Placed p item → ReadsItem layout item
    item_reads item (inl nothing) = inl nothing
    item_reads item (inr held) = inr (
        same item.0
        ∙ ap (read_descriptor p.pool) held.found
        ∙ ap (λ m. m >>= λ found. ok (some found)) held.reads)

    all_items : (items : List (ℕ × List Page)) → All (Placed p) items → All (ReadsItem layout) items
    all_items [] k = tt
    all_items (item ∷ items) k = (item_reads item k.0, all_items items k.1)

    all_owners :
        (owners : List (List (ℕ × List Page)))
        → All (All (Placed p)) owners
        → All (All (ReadsItem layout)) owners
    all_owners [] k = tt
    all_owners (items ∷ owners) k = (all_items items k.0, all_owners owners k.1)

-- When the pools of the owners are concatenated and a permutation of the pool is accepted, every
-- key of every owner that has pages reads exactly its pages in the pooled layout.
pub apply_permutation-ReadsItem :
    (owners : List (List (ℕ × List Page))) (permutation : List ℕ) {p : Pool} {layout : PooledLayout}
    → concatenate_owner_pools owners ≡ ok p
    → apply_permutation p.pool p.descriptors permutation ≡ ok layout
    → All (All (ReadsItem layout)) owners
unfolding concatenate_owner_pools
apply_permutation-ReadsItem owners permutation {p} {layout} h k =
    Placed-ReadsItem p layout owners
      (λ key. read-apply_permutation p.pool p.descriptors permutation key k)
      (add_owners-Placed 0 owners empty_pool h).1
