-- ===== src/CompactDirectory/Build.antt =====
-- compact_directory.py, `build_owner_table`: the table of one owner and the items of its dictionary.
use fed_kg_rag_secure_impl.Prelude.{
  ℕ, ◌*◌, ◌<◌, ◌≡◌, ◌≢◌, refl, sym, subst, arith, Bool, Bool-cases, inl, inr, ◌⊎◌, true, List, [],
  ◌∷◌, ◌==◌, replicate, length-replicate, get_or-replicate, All, if◌then◌else◌, ==→eq,
}
use fed_kg_rag_secure_impl.Python.{ok, >>=-eq-ok, ok-injective}
use fed_kg_rag_secure_impl.Python.Sequence.{insert_by, sort_by, All-sort_by}
use fed_kg_rag_secure_impl.CompactDirectory.{
  TableShape, width, bucket_of, place_slot, fill_table, build_owner_table, item_le,
}
use fed_kg_rag_secure_impl.CompactDirectory.Table.{position, place_slot-IsPlaced}
use fed_kg_rag_secure_impl.CompactDirectory.Placing.{
  holds_tag, IsOwnerRow, HasKey, place_slot-IsOwnerRow, place_slot-HasKey, place_slot-HasKey_new,
}

-- No two items have the same key, as in a dictionary.
unfoldable pub DistinctKeys : List (ℕ × ℕ) → Type 0
DistinctKeys [] = Unit
DistinctKeys (e ∷ items) = All (λ (f : ℕ × ℕ). f.0 ≢ e.0) items × DistinctKeys items

-- The value of a key, or zero.
unfoldable pub descriptor_of : ℕ → List (ℕ × ℕ) → ℕ
descriptor_of tag [] = 0
descriptor_of tag ((key, descriptor) ∷ items) =
    if tag == key then descriptor else descriptor_of tag items

-- Some item has the key.
AnyKey : ℕ → List (ℕ × ℕ) → Type 0
AnyKey tag [] = ⊥
AnyKey tag (e ∷ items) = (e.0 ≡ tag) ⊎ AnyKey tag items

Agrees : ℕ → ℕ → ℕ × ℕ → Type 0
Agrees tag d e = e.0 ≡ tag → e.1 ≡ d

others_agree :
    (tag d : ℕ) (items : List (ℕ × ℕ))
    → All (λ (f : ℕ × ℕ). f.0 ≢ tag) items
    → All (Agrees tag d) items
unfolding Agrees
others_agree tag d [] h = tt
others_agree tag d (e ∷ items) h = (λ same. absurd (h.0 same), others_agree tag d items h.1)

descriptor_of-Agrees :
    (tag : ℕ) (items : List (ℕ × ℕ))
    → DistinctKeys items
    → All (Agrees tag (descriptor_of tag items)) items
unfolding descriptor_of Agrees DistinctKeys
descriptor_of-Agrees tag [] h = tt
descriptor_of-Agrees tag ((key, descriptor) ∷ items) h = elim (Bool-cases (tag == key)) [
  | inl same ↦
      let e : descriptor_of tag ((key, descriptor) ∷ items) ≡ descriptor = rw same refl in
      let others =
        subst (λ (k : ℕ). All (λ (f : ℕ × ℕ). f.0 ≢ k) items) (sym (==→eq tag key same)) h.0 in
      (λ own. sym e, others_agree tag _ items others)
  | inr other ↦
      let e : descriptor_of tag ((key, descriptor) ∷ items) ≡ descriptor_of tag items =
        rw other refl in
      let ne : key ≢ tag = ground arith in
      (
        λ own. absurd (ne own),
        subst (λ d. All (Agrees tag d) items) (sym e) (descriptor_of-Agrees tag items h.1),
      )
]

descriptor_of-cases :
    (tag : ℕ) (items : List (ℕ × ℕ)) → AnyKey tag items ⊎ (descriptor_of tag items ≡ 0)
unfolding descriptor_of AnyKey
descriptor_of-cases tag [] = inr refl
descriptor_of-cases tag ((key, descriptor) ∷ items) = elim (Bool-cases (tag == key)) [
  | inl same ↦ inl (inl (sym (==→eq tag key same)))
  | inr other ↦ elim (descriptor_of-cases tag items) [
    | inl any ↦ inl (inr any)
    | inr none ↦ inr (rw other none)
  ]
]

AnyKey-insert_by :
    (le : ℕ × ℕ → ℕ × ℕ → Bool) (tag : ℕ) (a : ℕ × ℕ) (items : List (ℕ × ℕ))
    → (a.0 ≡ tag) ⊎ AnyKey tag items
    → AnyKey tag (insert_by le a items)
unfolding AnyKey
AnyKey-insert_by le tag a [] h = h
AnyKey-insert_by le tag a (b ∷ items) h = elim (Bool-cases (le a b)) [
  | inl before ↦ rw before h
  | inr behind ↦ rw behind (elim h [
    | inl new ↦ inr (AnyKey-insert_by le tag a items (inl new))
    | inr (inl head) ↦ inl head
    | inr (inr tail) ↦ inr (AnyKey-insert_by le tag a items (inr tail))
  ])
]

AnyKey-sort_by :
    (le : ℕ × ℕ → ℕ × ℕ → Bool) (tag : ℕ) (items : List (ℕ × ℕ))
    → AnyKey tag items
    → AnyKey tag (sort_by le items)
unfolding AnyKey sort_by
AnyKey-sort_by le tag [] h = h
AnyKey-sort_by le tag (a ∷ items) (inl head) =
    AnyKey-insert_by le tag a (sort_by le items) (inl head)
AnyKey-sort_by le tag (a ∷ items) (inr tail) =
    AnyKey-insert_by le tag a (sort_by le items) (inr (AnyKey-sort_by le tag items tail))

module _ (s : TableShape) (tag bucket owner d : ℕ) (small : owner < s.owner_count)
    (hash : bucket_of tag s.buckets ≡ ok bucket) where
  fill_table-IsOwnerRow :
      (keyed : List (ℕ × ℕ)) (table : List ℕ) (filled : List (ℕ × ℕ)) {out : List ℕ}
      → fill_table s owner keyed table filled ≡ ok out
      → All (Agrees tag d) keyed
      → IsOwnerRow s tag bucket owner d table
      → IsOwnerRow s tag bucket owner d out
  unfolding fill_table Agrees
  fill_table-IsOwnerRow [] table filled h all row =
      subst (IsOwnerRow s tag bucket owner d) (ok-injective h) row
  fill_table-IsOwnerRow ((t, descriptor) ∷ keyed) table filled h all row =
      let (step, run, rest) = >>=-eq-ok (place_slot s owner t descriptor table filled) _ h in
      fill_table-IsOwnerRow keyed step.0 step.1 rest all.1 (
        place_slot-IsOwnerRow s tag bucket owner d t descriptor table filled small
          (place_slot-IsPlaced s owner t descriptor table filled run) all.0 row)

  fill_table-HasKey :
      (keyed : List (ℕ × ℕ)) (table : List ℕ) (filled : List (ℕ × ℕ)) {out : List ℕ}
      → fill_table s owner keyed table filled ≡ ok out
      → AnyKey tag keyed ⊎ HasKey s tag bucket owner table filled
      → (counts : List (ℕ × ℕ)) × HasKey s tag bucket owner out counts
  unfolding fill_table AnyKey
  fill_table-HasKey [] table filled h (inl none) = elim none [ ]
  fill_table-HasKey [] table filled h (inr key) =
      (filled, subst (λ t. HasKey s tag bucket owner t filled) (ok-injective h) key)
  fill_table-HasKey ((t, descriptor) ∷ keyed) table filled h any =
      let (step, run, rest) = >>=-eq-ok (place_slot s owner t descriptor table filled) _ h in
      let placed = place_slot-IsPlaced s owner t descriptor table filled run in
      fill_table-HasKey keyed step.0 step.1 rest (elim any [
        | inl (inl head) ↦ inr (
            place_slot-HasKey_new s tag bucket owner d t descriptor table filled small placed hash
              head)
        | inl (inr tail) ↦ inl tail
        | inr key ↦
            inr (place_slot-HasKey s tag bucket owner d t descriptor table filled small placed key)
      ])

  zeros-IsOwnerRow : IsOwnerRow s tag bucket owner d (replicate (s.buckets * width s) 0)
  zeros-IsOwnerRow = record {
    size = length-replicate (s.buckets * width s) 0;
    answers = λ slot k m.
        let gone =
          subst (λ (c : ℕ). holds_tag s tag c ≡ true)
            (get_or-replicate (s.buckets * width s) (position s bucket owner slot) 0) m in
        ground arith;
    empty = λ other slot ne k l.
        get_or-replicate (s.buckets * width s) (position s bucket other slot) 0;
  }

-- The table answers the lookup of a tag with `d`.
pub record IsAnswer (s : TableShape) (tag bucket owner d : ℕ) (table : List ℕ) : Type 0 where
  pub row : IsOwnerRow s tag bucket owner d table
  pub here : ((counts : List (ℕ × ℕ)) × HasKey s tag bucket owner table counts) ⊎ (d ≡ 0)

pub build_owner_table-IsAnswer :
    (s : TableShape) (tag bucket owner : ℕ) (items : List (ℕ × ℕ)) {table : List ℕ}
    → owner < s.owner_count
    → bucket_of tag s.buckets ≡ ok bucket
    → DistinctKeys items
    → build_owner_table s owner items ≡ ok table
    → IsAnswer s tag bucket owner (descriptor_of tag items) table
unfolding build_owner_table
build_owner_table-IsAnswer s tag bucket owner items small hash distinct h =
    let d = descriptor_of tag items in
    let sorted = sort_by item_le items in
    let start = replicate (s.buckets * width s) 0 in
    record {
      row =
          fill_table-IsOwnerRow s tag bucket owner d small hash sorted start [] h
            (All-sort_by item_le (Agrees tag d) items (descriptor_of-Agrees tag items distinct))
            (zeros-IsOwnerRow s tag bucket owner d small hash);
      here = elim (descriptor_of-cases tag items) [
        | inl any ↦ inl (
            fill_table-HasKey s tag bucket owner d small hash sorted start [] h
              (inl (AnyKey-sort_by item_le tag items any)))
        | inr absent ↦ inr absent
      ];
    }
