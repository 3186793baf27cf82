-- ===== src/CompactDirectory/Placing.antt =====
-- compact_directory.py, the body of the loop of `build_owner_table`: what the lookup of a tag needs.
use fed_kg_rag_secure_impl.Prelude.{
  ℕ, ◌+◌, ◌-◌, ◌*◌, ◌^◌, ◌<◌, ◌≤◌, ◌≡◌, ◌≢◌, ap, refl, sym, subst, ◌∙◌, arith, Bool, Bool-cases,
  inl, inr, ◌⊎◌, true, List, not, ◌&&◌, ◌==◌, bit_and, length, set, get_or-set_self, get_or-set_ne,
  if◌then◌else◌, length-set, one-le-pow, ==→eq, ==_refl,
}
use fed_kg_rag_secure_impl.Prelude.Arith.{zero-div}
use fed_kg_rag_secure_impl.Prelude.Bits.{◌<<<◌, ◌>>>◌}
use fed_kg_rag_secure_impl.Python.{ok, ok-injective, nat_key}
use fed_kg_rag_secure_impl.CompactDirectory.{TableShape, width, filled_of, bucket_of}
use fed_kg_rag_secure_impl.CompactDirectory.Slots.{pack_slot-unpacks}
use fed_kg_rag_secure_impl.CompactDirectory.Table.{
  position, cell_of, position-injective, filled_of-insert, IsPlaced,
}

-- The test of a slot against a tag, and the descriptor in a slot.
abbrev pub holds_tag : TableShape → ℕ → ℕ → Bool
holds_tag s tag packed = not (packed == 0) && (packed >>> s.descriptor_bits == tag)

abbrev pub payload : TableShape → ℕ → ℕ
payload s packed = bit_and packed ((1 <<< s.descriptor_bits) - 1)

-- What a table promises to the lookup of a tag with descriptor `d`.
pub record IsOwnerRow (s : TableShape) (tag bucket owner d : ℕ) (table : List ℕ) : Type 0 where
  pub size : length table ≡ s.buckets * width s
  pub answers :
      (slot : ℕ)
      → slot < s.slots
      → holds_tag s tag (cell_of table (position s bucket owner slot)) ≡ true
      → payload s (cell_of table (position s bucket owner slot)) ≡ d
  pub empty :
      (other slot : ℕ)
      → other ≢ owner
      → other < s.owner_count
      → slot < s.slots
      → cell_of table (position s bucket other slot) ≡ 0

-- A used slot holds the tag.
pub record HasKey (s : TableShape) (tag bucket owner : ℕ) (table : List ℕ) (filled : List (ℕ × ℕ))
    : Type 0 where
  pub slot : ℕ
  pub used : slot < filled_of bucket filled
  pub small : slot < s.slots
  pub found : holds_tag s tag (cell_of table (position s bucket owner slot)) ≡ true

cell-set :
    (table : List ℕ) (i j v : ℕ)
    → i < length table
    → cell_of (set table i v) j ≡ (if i == j then v else cell_of table j)
cell-set table i j v h = elim (Bool-cases (i == j)) [
  | inl same ↦
      rw same (
        subst (λ t. cell_of (set table i v) t ≡ v) (==→eq i j same) (get_or-set_self table i v 0 h))
  | inr other ↦ rw other (get_or-set_ne table i j v 0 (ground arith))
]

module _ (s : TableShape) (tag bucket owner d t descriptor : ℕ) (table : List ℕ)
    (filled : List (ℕ × ℕ)) {next : List ℕ} {counts : List (ℕ × ℕ)} (small : owner < s.owner_count)
    (p : IsPlaced s owner t descriptor table filled next counts) where
  target : ℕ
  target = position s p.bucket owner (filled_of p.bucket filled)

  cell-written : cell_of next target ≡ p.packed
  unfolding target
  cell-written =
      rw p.written (cell-set table target target p.packed p.inside ∙ (rw (==_refl target) refl))

  written_cell : cell_of next (position s p.bucket owner (filled_of p.bucket filled)) ≡ p.packed
  unfolding target
  written_cell = cell-written

  cell-kept : (j : ℕ) → target ≢ j → cell_of next j ≡ cell_of table j
  unfolding target
  cell-kept j ne = rw p.written (get_or-set_ne table target j p.packed 0 ne)

  -- A cell of the next table is the written one, or it is kept.
  cell-cases :
      (j : ℕ) → ((target ≡ j) × (cell_of next j ≡ p.packed)) ⊎ (cell_of next j ≡ cell_of table j)
  cell-cases j = elim (Bool-cases (target == j)) [
    | inl same ↦
        let e = ==→eq target j same in
        inl (e, subst (λ t. cell_of next t ≡ p.packed) e cell-written)
    | inr other ↦ inr (cell-kept j (ground arith))
  ]

  target-injective :
      (o u : ℕ)
      → o < s.owner_count
      → u < s.slots
      → target ≡ position s bucket o u
      → (p.bucket ≡ bucket) × (owner ≡ o) × (filled_of p.bucket filled ≡ u)
  unfolding target
  target-injective o u k l e = position-injective s p.bucket owner _ bucket o u small p.free k l e

  matched-eq : holds_tag s tag p.packed ≡ true → t ≡ tag
  matched-eq h =
      let (high, low) = pack_slot-unpacks t descriptor s.descriptor_bits p.packs in ground arith

  new-holds_tag : t ≡ tag → holds_tag s tag p.packed ≡ true
  new-holds_tag same =
      let (high, low) = pack_slot-unpacks t descriptor s.descriptor_bits p.packs in
      let live : p.packed ≢ 0 = λ e. p.nonzero (
        sym high
        ∙ ap (λ (x : ℕ). x >>> s.descriptor_bits) e
        ∙ zero-div (2 ^ s.descriptor_bits) (one-le-pow s.descriptor_bits 2 (omega arith))) in
      ground arith

  counts_new : filled_of p.bucket counts ≡ filled_of p.bucket filled + 1
  counts_new =
      rw p.counted (filled_of-insert p.bucket p.bucket _ filled ∙ (rw (==_refl p.bucket) refl))

  grows : filled_of bucket filled ≤ filled_of bucket counts
  grows =
      rw (p.counted, filled_of-insert p.bucket bucket (filled_of p.bucket filled + 1) filled)
        (elim (Bool-cases (bucket == p.bucket)) [
          | inl same ↦
              rw same
                (omega (arith, ap (λ (x : ℕ). filled_of x filled) (==→eq bucket p.bucket same)))
          | inr other ↦ rw other (omega arith)
        ])

  pub place_slot-IsOwnerRow :
      (t ≡ tag → descriptor ≡ d)
      → IsOwnerRow s tag bucket owner d table
      → IsOwnerRow s tag bucket owner d next
  place_slot-IsOwnerRow agrees row = record {
    size = ap length p.written ∙ length-set table _ p.packed ∙ row.size;
    answers = λ slot k m. elim (cell-cases (position s bucket owner slot)) [
      | inl (_, new) ↦
          let matched = subst (λ (c : ℕ). holds_tag s tag c ≡ true) new m in
          ap (payload s) new
          ∙ (pack_slot-unpacks t descriptor s.descriptor_bits p.packs).1
          ∙ agrees (matched-eq matched)
      | inr kept ↦
          ap (payload s) kept
          ∙ row.answers slot k (subst (λ (c : ℕ). holds_tag s tag c ≡ true) kept m)
    ];
    empty = λ other slot ne k l. elim (cell-cases (position s bucket other slot)) [
      | inl (e, _) ↦
          let (_, owner_eq, _) = target-injective other slot k l e in absurd (ne (sym owner_eq))
      | inr kept ↦ kept ∙ row.empty other slot ne k l
    ];
  }

  pub place_slot-HasKey :
      HasKey s tag bucket owner table filled → HasKey s tag bucket owner next counts
  place_slot-HasKey key = elim (cell-cases (position s bucket owner key.slot)) [
    | inl (e, _) ↦
        let (b, _, u) = target-injective owner key.slot small key.small e in
        absurd (omega (arith, key.used, u, ap (λ (x : ℕ). filled_of x filled) b))
    | inr kept ↦ record {
      slot = key.slot;
      used = omega (arith, key.used, grows);
      small = key.small;
      found = subst (λ (c : ℕ). holds_tag s tag c ≡ true) (sym kept) key.found;
    }
  ]

  pub place_slot-HasKey_new :
      bucket_of tag s.buckets ≡ ok bucket → t ≡ tag → HasKey s tag bucket owner next counts
  place_slot-HasKey_new hash same =
      let e : p.bucket ≡ bucket =
        ok-injective (sym p.hashed ∙ ap (λ (x : ℕ). bucket_of x s.buckets) same ∙ hash) in
      record {
        slot = filled_of p.bucket filled;
        used = omega (arith, counts_new, ap (λ (x : ℕ). filled_of x counts) e);
        small = p.free;
        found =
            subst
              (λ (b : ℕ).
                holds_tag s tag (cell_of next (position s b owner (filled_of p.bucket filled)))
                ≡ true)
              e
              (subst (λ (c : ℕ). holds_tag s tag c ≡ true) (sym written_cell) (new-holds_tag same));
      }
