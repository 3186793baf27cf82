-- ===== src/TypeBlocks/Rows.antt =====
-- The rows of the blocked directory: the blocks do not overlap.
use fed_kg_rag_secure_impl.Prelude.{
  ℕ, ◌+◌, ◌-◌, ◌<◌, ◌≤◌, ◌≡◌, ◌⊎◌, inl, inr, sym, ap, ◌∙◌, subst, String, true, false, some, List,
  [], ◌∷◌, arith, str_eq, Bool-cases,
}
use mathlib.Core.Option.{some-injective}
use fed_kg_rag_secure_impl.Python.{
  Result, ok, ◌>>=◌, >>=-eq-ok, ok-injective, lookup, insert, lookup-insert, string_key,
  string-same→eq,
}
use fed_kg_rag_secure_impl.Python.Sequence.{item}
use fed_kg_rag_secure_impl.TypeBlocks.{
  TypeBlockedLayout, Block, block_of, row_in, address, place_blocks, build_layout_from_public_ids,
}

-- The number of rows of a relation.
abbrev pub size_of : List (String × String) → List (String × ℕ) → String → Result ℕ
size_of domains sizes relation = do domain ← item relation domains; item domain sizes

-- Two ranges of rows that do not meet.
abbrev Apart : ℕ → ℕ → ℕ → ℕ → Type 0
Apart s z s' z' = (s + z ≤ s') ⊎ (s' + z' ≤ s)

insert_cases :
    (r relation : String) (cursor s : ℕ) (starts : List (String × ℕ))
    → lookup r (insert relation cursor starts) ≡ some s
    → ((r ≡ relation) × (s ≡ cursor)) ⊎ ((str_eq r relation ≡ false) × (lookup r starts ≡ some s))
insert_cases r relation cursor s starts found = elim (Bool-cases (str_eq r relation)) [
  | inl same ↦ inl (
    string-same→eq r relation same,
    sym (some-injective cursor s (rw (lookup-insert relation r cursor starts, same) at found)),
  )
  | inr other ↦ inr (other, rw (lookup-insert relation r cursor starts, other) at found)
]

true_not_false : true ≡ false → ⊥
true_not_false h = cc

module _ (domains : List (String × String)) (sizes : List (String × ℕ)) where
  -- The blocks placed so far lie between row one and the cursor, and do not overlap.
  record Placement (starts : List (String × ℕ)) (cursor : ℕ) : Type 0 where
    bounds :
        (r : String) (s z : ℕ)
        → lookup r starts ≡ some s
        → size_of domains sizes r ≡ ok z
        → (1 ≤ s) × (s + z ≤ cursor)
    apart :
        (r r' : String) (s s' z z' : ℕ)
        → str_eq r r' ≡ false
        → lookup r starts ≡ some s
        → lookup r' starts ≡ some s'
        → size_of domains sizes r ≡ ok z
        → size_of domains sizes r' ≡ ok z'
        → Apart s z s' z'

  place_one :
      (relation : String) (cursor size : ℕ) (starts : List (String × ℕ))
      → 1 ≤ cursor
      → size_of domains sizes relation ≡ ok size
      → Placement starts cursor
      → Placement (insert relation cursor starts) (cursor + size)
  place_one relation cursor size starts some_row sized p = record {
    bounds = λ r s z found h. elim (insert_cases r relation cursor s starts found) [
      | inl (same, e) ↦ let q = one_size r z same h in (omega (arith, e), omega (arith, e, q))
      | inr (other, before) ↦ let b = p.bounds r s z before h in (b.0, omega (arith, b.1))
    ];
    apart = λ r r' s s' z z' ne found found' h h'.
        elim (insert_cases r relation cursor s starts found) [
          | inl (same, e) ↦ elim (insert_cases r' relation cursor s' starts found') [
            | inl (same', e') ↦ absurd (clash r r' ne same same')
            | inr (other', before') ↦ inr (omega (arith, e, (p.bounds r' s' z' before' h').1))
          ]
          | inr (other, before) ↦ elim (insert_cases r' relation cursor s' starts found') [
            | inl (same', e') ↦ inl (omega (arith, e', (p.bounds r s z before h).1))
            | inr (other', before') ↦ p.apart r r' s s' z z' ne before before' h h'
          ]
        ];
  }
    where
      one_size : (r : String) (z : ℕ) → r ≡ relation → size_of domains sizes r ≡ ok z → z ≡ size
      one_size r z same h = ok-injective (sym h ∙ ap (size_of domains sizes) same ∙ sized)

      clash : (r r' : String) → str_eq r r' ≡ false → r ≡ relation → r' ≡ relation → ⊥
      clash r r' ne same same' =
          true_not_false (sym (string_key.same_refl r) ∙ ap (str_eq r) (same ∙ sym same') ∙ ne)

  place_blocks-Placement :
      (relations : List String) (cursor : ℕ) (starts : List (String × ℕ)) {out : List (String × ℕ)}
      → 1 ≤ cursor
      → Placement starts cursor
      → place_blocks domains sizes relations cursor starts ≡ ok out
      → (end : ℕ) × Placement out end
  unfolding place_blocks
  place_blocks-Placement [] cursor starts some_row p h =
      (cursor, subst (λ (l : List (String × ℕ)). Placement l cursor) (ok-injective h) p)
  place_blocks-Placement (relation ∷ relations) cursor starts some_row p h =
      let (domain, d, rest) =
        >>=-eq-ok (item relation domains)
          (λ domain. item domain sizes >>= λ size.
            place_blocks domains sizes relations (cursor + size) (insert relation cursor starts))
          h in
      let (size, z, more) =
        >>=-eq-ok (item domain sizes)
          (λ size.
            place_blocks domains sizes relations (cursor + size) (insert relation cursor starts))
          rest in
      let sized : size_of domains sizes relation ≡ ok size = rw (d, z) in
      place_blocks-Placement relations (cursor + size) (insert relation cursor starts) (omega arith)
        (place_one relation cursor size starts some_row sized p) more

pub record BuiltBlocks (entity_ids : List (String × ℕ)) (l : TypeBlockedLayout) : Type 0 where
  pub placed : place_blocks l.relation_domain l.type_size l.relation_order 1 [] ≡ ok l.block_start
  pub indexed : l.entity_index ≡ entity_ids

pub build_layout-BuiltBlocks :
    (entity_ids relation_ids : List (String × ℕ)) (types domains : List (String × String))
    {l : TypeBlockedLayout}
    → build_layout_from_public_ids entity_ids relation_ids types domains ≡ ok l
    → BuiltBlocks entity_ids l
unfolding build_layout_from_public_ids
build_layout-BuiltBlocks entity_ids relation_ids types domains h = record {
  placed = ground arith;
  indexed = ground arith;
}

-- What an address has been computed from.
pub record Addressed (l : TypeBlockedLayout) (entity relation : String) (i : ℕ) : Type 0 where
  pub index : ℕ
  pub block : Block
  pub known : lookup entity l.entity_index ≡ some index
  pub found : block_of l relation ≡ ok block
  pub inside : (block.first ≤ index) × (index < block.first + block.width)
  pub row : i ≡ block.start + index - block.first

row_in_inversion :
    (b : Block) (index : ℕ) {i : ℕ}
    → row_in b index ≡ some i
    → ((b.first ≤ index) × (index < b.first + b.width)) × (i ≡ b.start + index - b.first)
row_in_inversion b index h = ground arith

pub address-Addressed :
    (l : TypeBlockedLayout) (entity relation : String) {i : ℕ}
    → address l entity relation ≡ ok (some i)
    → Addressed l entity relation i
unfolding address
address-Addressed l entity relation h = ground arith

item_some :
    {V : Type 0} (a : String) (d : List (String × V)) {v : V}
    → item a d ≡ ok v
    → lookup a d ≡ some v
item_some a d h = ground arith

pub record BlockParts (l : TypeBlockedLayout) (relation : String) (b : Block) : Type 0 where
  pub started : lookup relation l.block_start ≡ some b.start
  pub sized : size_of l.relation_domain l.type_size relation ≡ ok b.width

pub block_of-BlockParts :
    (l : TypeBlockedLayout) (relation : String) {b : Block}
    → block_of l relation ≡ ok b
    → BlockParts l relation b
unfolding block_of
block_of-BlockParts l relation {b} h = record { started = ground arith; sized = ground arith }

-- A row lies in the block of its relation.
pub row_in_block :
    {l : TypeBlockedLayout} {entity relation : String} {i : ℕ}
    → (a : Addressed l entity relation i)
    → (a.block.start ≤ i) × (i < a.block.start + a.block.width)
row_in_block a = (omega (arith, a.inside, a.row), omega (arith, a.inside, a.row))

pub nothing_placed : (r : String) {s : ℕ} → lookup r [] ≡ some s → ⊥
nothing_placed r h = cc

-- In a layout that `build_layout_from_public_ids` returns, two keys with the same row have the
-- same relation and entities with the same identifier, and the row is not the reserved row zero.
pub address-injective :
    (entity_ids relation_ids : List (String × ℕ)) (types domains : List (String × String))
    (entity relation entity' relation' : String) {l : TypeBlockedLayout} {i : ℕ}
    → build_layout_from_public_ids entity_ids relation_ids types domains ≡ ok l
    → address l entity relation ≡ ok (some i)
    → address l entity' relation' ≡ ok (some i)
    → (relation ≡ relation') × (lookup entity entity_ids ≡ lookup entity' entity_ids) × (1 ≤ i)
address-injective entity_ids relation_ids types domains entity relation entity' relation' {l} {i}
      built h h' =
    let b = build_layout-BuiltBlocks entity_ids relation_ids types domains built in
    let a = address-Addressed l entity relation h in
    let a' = address-Addressed l entity' relation' h' in
    let q = block_of-BlockParts l relation a.found in
    let q' = block_of-BlockParts l relation' a'.found in
    let (end, p) =
      place_blocks-Placement l.relation_domain l.type_size l.relation_order 1 [] (omega arith)
        (record {
          bounds = λ r s z found h. absurd (nothing_placed r found);
          apart = λ r r' s s' z z' ne f f' h h'. absurd (nothing_placed r f);
        })
        b.placed in
    let (low, high) = row_in_block a in
    let (low', high') = row_in_block a' in
    let same : relation ≡ relation' = elim (Bool-cases (str_eq relation relation')) [
      | inl e ↦ string-same→eq relation relation' e
      | inr ne ↦
          elim (p.apart relation relation' a.block.start a'.block.start a.block.width a'.block.width
            ne q.started q'.started q.sized q'.sized) [
              | inl before ↦ absurd (omega (arith, high, low', before))
              | inr behind ↦ absurd (omega (arith, high', low, behind))
            ]
    ] in
    let block : a.block ≡ a'.block = ok-injective (sym a.found ∙ ap (block_of l) same ∙ a'.found) in
    let index : a.index ≡ a'.index = omega (
      arith,
      a.row,
      a'.row,
      a.inside,
      a'.inside,
      ap (λ (x : Block). x.start) block,
      ap (λ (x : Block). x.first) block,
    ) in
    (
      same,
      ap (lookup entity) (sym b.indexed)
          ∙ a.known
          ∙ ap some index
          ∙ sym a'.known
          ∙ ap (lookup entity') b.indexed,
      omega (arith, low, (p.bounds relation a.block.start a.block.width q.started q.sized).0),
    )
