-- ===== src/TypeBlocks/Height.antt =====
-- `total_rows` of the blocked directory: the height of the table that holds its rows.
use fed_kg_rag_secure_impl.Prelude.{
  ℕ, ◌+◌, ◌<◌, ◌≤◌, ◌≡◌, ◌⊎◌, inl, inr, sym, ap, ◌∙◌, String, true, some, List, [], ◌∷◌, arith,
  str_eq, length, Bool-cases, refl, subst,
}
use fed_kg_rag_secure_impl.Python.{
  Result, ok, ◌>>=◌, >>=-eq-ok, ok-injective, lookup, insert, string_key, string-same→eq, contains,
  map_result, length-map_result, lookup-insert,
}
use fed_kg_rag_secure_impl.Python.Sequence.{item, max_default}
use fed_kg_rag_secure_impl.TypeBlocks.{
  TypeBlockedLayout, Block, address, place_blocks, build_layout_from_public_ids, total_rows,
  block_end,
}
use fed_kg_rag_secure_impl.TypeBlocks.Rows.{
  build_layout-BuiltBlocks, address-Addressed, block_of-BlockParts, row_in_block, nothing_placed,
  size_of,
}

le_max_default : (d : ℕ) (x : ℕ) (xs : List ℕ) → x ≤ max_default d (x ∷ xs)
le_max_default d x [] = omega arith
le_max_default d x (y ∷ xs) = omega arith

max_default_rest :
    (d v x : ℕ) (xs : List ℕ) → 1 ≤ length xs → v ≤ max_default d xs → v ≤ max_default d (x ∷ xs)
max_default_rest d v x [] some_item h = absurd (omega arith)
max_default_rest d v x (y ∷ xs) some_item h = omega arith

contains-some : (r : String) (names : List String) → contains r names ≡ true → 1 ≤ length names
contains-some r [] h = cc
contains-some r (name ∷ names) h = omega arith

-- The result of `f` on a name of the list is at most the largest result.
map_result-le-max_default :
    (f : String → Result ℕ) (d : ℕ) (r : String) (names : List String) {results : List ℕ} {v : ℕ}
    → map_result f names ≡ ok results
    → contains r names ≡ true
    → f r ≡ ok v
    → v ≤ max_default d results
map_result-le-max_default f d r [] h c e = cc
map_result-le-max_default f d r (name ∷ names) {results} {v} h c e =
    let (a, p, rest) = >>=-eq-ok (f name) (λ a. map_result f names >>= λ more. ok (a ∷ more)) h in
    let (more, q, o) = >>=-eq-ok (map_result f names) (λ more. ok (a ∷ more)) rest in
    let up : a ∷ more ≡ results = ok-injective o in
    elim (Bool-cases (str_eq r name)) [
      | inl same ↦
          let here : a ≡ v = ok-injective (sym p ∙ ap f (sym (string-same→eq r name same)) ∙ e) in
          subst (λ (l : List ℕ). v ≤ max_default d l) up
            (omega (arith, here, le_max_default d a more))
      | inr other ↦
          let ih = map_result-le-max_default f d r names q (rw other at c) e in
          let some_item : 1 ≤ length more =
            omega (arith, length-map_result f names q, contains-some r names (rw other at c)) in
          subst (λ (l : List ℕ). v ≤ max_default d l) up (max_default_rest d v a more some_item ih)
    ]

-- A relation has a block only if the loop has placed it.
lookup-place_blocks :
    (domains : List (String × String)) (sizes : List (String × ℕ)) (r : String)
    (relations : List String) (cursor : ℕ) (starts : List (String × ℕ)) {out : List (String × ℕ)}
    {s : ℕ}
    → place_blocks domains sizes relations cursor starts ≡ ok out
    → lookup r out ≡ some s
    → (contains r relations ≡ true) ⊎ (lookup r starts ≡ some s)
unfolding place_blocks
lookup-place_blocks domains sizes r [] cursor starts {s = s} h found =
    inr (subst (λ (l : List (String × ℕ)). lookup r l ≡ some s) (sym (ok-injective h)) found)
lookup-place_blocks domains sizes r (relation ∷ relations) cursor starts h found =
    let (domain, d, rest) = >>=-eq-ok (item relation domains) _ h in
    let (size, z, more) = >>=-eq-ok (item domain sizes) _ rest in
    elim (Bool-cases (str_eq r relation)) [
      | inl same ↦ inl (rw same refl)
      | inr other ↦
          elim (lookup-place_blocks domains sizes r relations (cursor + size)
            (insert relation cursor starts) more found) [
              | inl later ↦ inl (rw other later)
              | inr before ↦ inr (rw (lookup-insert relation r cursor starts, other) at before)
            ]
    ]

block_end-ok :
    (l : TypeBlockedLayout) (relation : String) (b : Block)
    → lookup relation l.block_start ≡ some b.start
    → size_of l.relation_domain l.type_size relation ≡ ok b.width
    → block_end l relation ≡ ok (b.start + b.width)
block_end-ok l relation b started sized =
    let (domain, d, z) = >>=-eq-ok (item relation l.relation_domain) _ sized in
    rw (started, d, z) refl

-- In a layout that `build_layout_from_public_ids` returns, the row of every key that has one is
-- below `total_rows`, when `total_rows` returns.
pub address-lt-total_rows :
    (entity_ids relation_ids : List (String × ℕ)) (types domains : List (String × String))
    (entity relation : String) {l : TypeBlockedLayout} {i rows : ℕ}
    → build_layout_from_public_ids entity_ids relation_ids types domains ≡ ok l
    → address l entity relation ≡ ok (some i)
    → total_rows l ≡ ok rows
    → i < rows
unfolding total_rows
address-lt-total_rows entity_ids relation_ids types domains entity relation {l} {i} built h total =
    let b = build_layout-BuiltBlocks entity_ids relation_ids types domains built in
    let a = address-Addressed l entity relation h in
    let q = block_of-BlockParts l relation a.found in
    let (ends, e, largest) = >>=-eq-ok (map_result (block_end l) l.relation_order) _ total in
    let end : block_end l relation ≡ ok (a.block.start + a.block.width) =
      block_end-ok l relation a.block q.started q.sized in
    let listed : contains relation l.relation_order ≡ true =
      elim (lookup-place_blocks _ _ relation l.relation_order 1 [] b.placed q.started) [
        | inl c ↦ c
        | inr none_placed ↦ absurd (nothing_placed relation none_placed)
      ] in
    let top = map_result-le-max_default (block_end l) 1 relation l.relation_order e listed end in
    omega (arith, (row_in_block a).1, top, ok-injective largest)
