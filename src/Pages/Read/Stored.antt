-- ===== src/Pages/Read/Stored.antt =====
-- What the placing loop keeps of each key: its pages in the pool and its descriptor in the
-- directory. The directory is the dense one.
use fed_kg_rag_secure_impl.Prelude.{
  ℕ, ◌+◌, ◌-◌, ◌<◌, ◌≤◌, ◌≡◌, ◌≢◌, sym, ap, ap₂, ◌∙◌, subst, true, false, Option, none, some, List,
  [], ◌∷◌, ◌++◌, arith, length, get_elem?, set, inl, inr, Bool-cases, length-append,
  get_elem?-append_left, get_elem?-append_right, get_elem?-set_self, get_elem?-set_ne,
}
use mathlib.Core.Option.{some-injective}
use fed_kg_rag_secure_impl.Python.{
  ok, ◌>>=◌, >>=-eq-ok, ok-injective, lookup, pair_key, same_pair, same_pair→eq, same_pair_refl,
}
use fed_kg_rag_secure_impl.Python.Sequence.{set_item, set_item-set}
use fed_kg_rag_secure_impl.Pages.{effective_frontier_per_owner}
use fed_kg_rag_secure_impl.Pages.Directory.{
  RelationPageConfig, relation_count, dense_directory_index, blocked_directory_index,
  pack_descriptor,
}
use fed_kg_rag_secure_impl.Pages.Directory.Laws.{dense_directory_index-injective}
use fed_kg_rag_secure_impl.Pages.Build.{
  Entry, Groups, Placed, pages_needed, make_pages, write_descriptor, place_key, place_keys,
}
use fed_kg_rag_secure_impl.Pages.Build.Shape.{place_key-PlacedKey, make_pages_shape}

-- A key in the tables.
pub record IsStored (c : RelationPageConfig) (key : ℕ × ℕ) (records : List Entry) (p : Placed)
    : Type 0 where
  pub row : ℕ
  pub descriptor : ℕ
  pub page_base : ℕ
  pub count : ℕ
  pub pages : List (List ℕ)
  pub indexed : dense_directory_index c key.0 key.1 ≡ ok row
  pub written : get_elem? p.directory row ≡ some descriptor
  pub packed : pack_descriptor c page_base count ≡ ok descriptor
  pub needed : pages_needed (length records) c.pages.page_size ≡ ok count
  pub key_bound : count ≤ c.pages.pages_per_key
  pub read_bound : length records ≤ effective_frontier_per_owner c.pages
  pub made : make_pages c count records ≡ ok pages
  pub inside : page_base + count ≤ length p.pool
  pub pooled : (j : ℕ) → j < count → get_elem? p.pool (page_base + j) ≡ get_elem? pages j

-- The write of a dense configuration: its row, and the tables after it.
record DenseWrite (c : RelationPageConfig) (key : ℕ × ℕ) (d : ℕ) (p q : Placed) : Type 0 where
  row : ℕ
  indexed : dense_directory_index c key.0 key.1 ≡ ok row
  inside : row < length p.directory
  pool : q.pool ≡ p.pool
  directory : q.directory ≡ set p.directory row d

dense_write :
    (c : RelationPageConfig) (key : ℕ × ℕ) (d : ℕ) (blocked : Option ℕ) (p : Placed) {q : Placed}
    → c.type_blocks ≡ none
    → blocked_directory_index c key.0 key.1 ≡ ok blocked
    → write_descriptor c key d blocked p ≡ ok q
    → DenseWrite c key d p q
unfolding blocked_directory_index write_descriptor dense_directory_index relation_count
dense_write c key d blocked p {q} dense found h =
    let indexed : (dense_directory_index c key.0 key.1 >>= λ i. ok (some i)) ≡ ok blocked =
      rw dense at found in
    let (row, e, o) = >>=-eq-ok (dense_directory_index c key.0 key.1) (λ i. ok (some i)) indexed in
    let h' : (set_item p.directory row d >>= λ x. ok (record p { directory = x })) ≡ ok q =
      rw (← ok-injective o) at h in
    let (directory, s, same) =
      >>=-eq-ok (set_item p.directory row d) (λ x. ok (record p { directory = x })) h' in
    let written = set_item-set p.directory row d s in
    record {
      row = row;
      indexed = e;
      inside = written.1;
      pool = ap (λ (x : Placed). x.pool) (sym (ok-injective same));
      directory = ap (λ (x : Placed). x.directory) (sym (ok-injective same)) ∙ written.0;
    }

-- The row of another key is not written.
other_row :
    (c : RelationPageConfig) (key other : ℕ × ℕ) {i j : ℕ}
    → dense_directory_index c key.0 key.1 ≡ ok i
    → dense_directory_index c other.0 other.1 ≡ ok j
    → key ≢ other
    → i ≢ j
other_row c key other {i} {j} h k ne same =
    let k' : dense_directory_index c other.0 other.1 ≡ ok i = k ∙ ap ok (sym same) in
    let (s, r) = dense_directory_index-injective c key.0 key.1 other.0 other.1 h k' in
    ne (ap₂ (λ (a b : ℕ). (a, b)) s r)

-- Placing another key keeps a stored key.
IsStored-kept :
    (c : RelationPageConfig) (key other : ℕ × ℕ) (records others : List Entry) (p : Placed)
    {q : Placed}
    → c.type_blocks ≡ none
    → other ≢ key
    → place_key c (other, others) p ≡ ok q
    → IsStored c key records p
    → IsStored c key records q
IsStored-kept c key other records others p {q} dense ne h s =
    let t = place_key-PlacedKey c other others p h in
    let w = dense_write c other t.descriptor t.blocked _ dense t.found t.written in
    let pool : q.pool ≡ p.pool ++ t.pages = w.pool in
    record {
      row = s.row;
      descriptor = s.descriptor;
      page_base = s.page_base;
      count = s.count;
      pages = s.pages;
      indexed = s.indexed;
      written =
          ap (λ (l : List ℕ). get_elem? l s.row) w.directory
          ∙ get_elem?-set_ne p.directory w.row s.row t.descriptor
              (other_row c other key w.indexed s.indexed ne)
          ∙ s.written;
      packed = s.packed;
      needed = s.needed;
      key_bound = s.key_bound;
      read_bound = s.read_bound;
      made = s.made;
      inside = omega (arith, s.inside, ap length pool, length-append p.pool t.pages);
      pooled = λ j k.
          ap (λ (l : List (List ℕ)). get_elem? l (s.page_base + j)) pool
          ∙ get_elem?-append_left p.pool t.pages (s.page_base + j) (omega (arith, s.inside, k))
          ∙ s.pooled j k;
    }

-- Placing a key stores it.
IsStored-placed :
    (c : RelationPageConfig) (key : ℕ × ℕ) (records : List Entry) (p : Placed) {q : Placed}
    → c.type_blocks ≡ none
    → place_key c (key, records) p ≡ ok q
    → IsStored c key records q
IsStored-placed c key records p {q} dense h =
    let t = place_key-PlacedKey c key records p h in
    let w = dense_write c key t.descriptor t.blocked _ dense t.found t.written in
    let pool : q.pool ≡ p.pool ++ t.pages = w.pool in
    let count = (make_pages_shape c t.required records t.made).0 in
    record {
      row = w.row;
      descriptor = t.descriptor;
      page_base = length p.pool;
      count = t.required;
      pages = t.pages;
      indexed = w.indexed;
      written =
          ap (λ (l : List ℕ). get_elem? l w.row) w.directory
          ∙ get_elem?-set_self p.directory w.row t.descriptor w.inside;
      packed = t.packed;
      needed = t.needed;
      key_bound = t.key_bound;
      read_bound = t.read_bound;
      made = t.made;
      inside = omega (arith, ap length pool, length-append p.pool t.pages, count);
      pooled = λ j k.
          let back : length p.pool + j - length p.pool ≡ j = omega arith in
          ap (λ (l : List (List ℕ)). get_elem? l (length p.pool + j)) pool
          ∙ get_elem?-append_right p.pool t.pages (length p.pool + j) (omega arith)
          ∙ ap (get_elem? t.pages) back;
    }

-- A key that is not placed leaves its row as it was.
absent_kept :
    (c : RelationPageConfig) (key other : ℕ × ℕ) (others : List Entry) (p : Placed) {q : Placed}
    {i : ℕ}
    → c.type_blocks ≡ none
    → other ≢ key
    → place_key c (other, others) p ≡ ok q
    → dense_directory_index c key.0 key.1 ≡ ok i
    → get_elem? q.directory i ≡ get_elem? p.directory i
absent_kept c key other others p {q} {i} dense ne h indexed =
    let t = place_key-PlacedKey c other others p h in
    let w = dense_write c other t.descriptor t.blocked _ dense t.found t.written in
    ap (λ (l : List ℕ). get_elem? l i) w.directory
    ∙ get_elem?-set_ne p.directory w.row i t.descriptor (other_row c other key w.indexed indexed ne)

-- Every key of a dictionary of groups occurs once.
abbrev pub Unique : Groups → Type 0
Unique [] = Unit
Unique ((key, records) ∷ groups) = (lookup key groups ≡ none) × Unique groups

none_not_some {ℓ} : {A : Type ℓ} {a : A} → none ≡ some a → ⊥
none_not_some h = cc

true_not_false : true ≡ false → ⊥
true_not_false h = cc

-- The key of a test that fails is another key.
different : (a b : ℕ × ℕ) → same_pair a b ≡ false → b ≢ a
different a b h e = true_not_false (sym (same_pair_refl a) ∙ ap (same_pair a) (sym e) ∙ h)

-- A key that is not in the groups keeps its row and, if it is stored, stays stored.
pub place_keys-absent :
    (c : RelationPageConfig) (key : ℕ × ℕ) (groups : Groups) (p : Placed) {q : Placed} {i : ℕ}
    → c.type_blocks ≡ none
    → lookup key groups ≡ none
    → place_keys c groups p ≡ ok q
    → dense_directory_index c key.0 key.1 ≡ ok i
    → get_elem? q.directory i ≡ get_elem? p.directory i
unfolding place_keys
place_keys-absent c key [] p {q} {i} dense missing h indexed =
    ap (λ (x : Placed). get_elem? x.directory i) (sym (ok-injective h))
place_keys-absent c key ((other, others) ∷ groups) p {q} {i} dense missing h indexed =
    let (next, e, rest) = >>=-eq-ok (place_key c (other, others) p) (place_keys c groups) h in
    elim (Bool-cases (same_pair key other)) [
      | inl same ↦ absurd (none_not_some (sym (rw same at missing)))
      | inr apart ↦
          place_keys-absent c key groups next dense (rw apart at missing) rest indexed
          ∙ absent_kept c key other others p dense (different key other apart) e indexed
    ]

place_keys-kept :
    (c : RelationPageConfig) (key : ℕ × ℕ) (records : List Entry) (groups : Groups) (p : Placed)
    {q : Placed}
    → c.type_blocks ≡ none
    → lookup key groups ≡ none
    → place_keys c groups p ≡ ok q
    → IsStored c key records p
    → IsStored c key records q
unfolding place_keys
place_keys-kept c key records [] p dense missing h s =
    subst (IsStored c key records) (ok-injective h) s
place_keys-kept c key records ((other, others) ∷ groups) p dense missing h s =
    let (next, e, rest) = >>=-eq-ok (place_key c (other, others) p) (place_keys c groups) h in
    elim (Bool-cases (same_pair key other)) [
      | inl same ↦ absurd (none_not_some (sym (rw same at missing)))
      | inr apart ↦
          place_keys-kept c key records groups next dense (rw apart at missing) rest
            (IsStored-kept c key other records others p dense (different key other apart) e s)
    ]

-- Every key of the groups is stored.
pub place_keys-IsStored :
    (c : RelationPageConfig) (key : ℕ × ℕ) (records : List Entry) (groups : Groups) (p : Placed)
    {q : Placed}
    → c.type_blocks ≡ none
    → Unique groups
    → lookup key groups ≡ some records
    → place_keys c groups p ≡ ok q
    → IsStored c key records q
unfolding place_keys
place_keys-IsStored c key records [] p dense unique found h = absurd (none_not_some found)
place_keys-IsStored c key records ((other, others) ∷ groups) p {q} dense unique found h =
    let (next, e, rest) = >>=-eq-ok (place_key c (other, others) p) (place_keys c groups) h in
    elim (Bool-cases (same_pair key other)) [
      | inl same ↦
          let placed =
            place_keys-kept c other others groups next dense unique.0 rest
              (IsStored-placed c other others p dense e) in
          subst (λ (x : ℕ × ℕ). IsStored c x records q) (sym (same_pair→eq key other same))
            (subst (λ (l : List Entry). IsStored c other l q)
              (some-injective others records (rw same at found)) placed)
      | inr apart ↦
          place_keys-IsStored c key records groups next dense unique.1 (rw apart at found) rest
    ]
