-- ===== src/Pages/Build/Shape.antt =====
-- The public shape of a built layout: its sizes are those the bounds declare, whatever the edges.
use fed_kg_rag_secure_impl.Prelude.{
  ℕ, zero, suc, ◌+◌, ◌-◌, ◌≤◌, ◌≡◌, refl, sym, ap, ◌∙◌, subst, String, Option, none, some, List, [],
  ◌∷◌, ◌++◌, arith, length, take, drop, replicate, All, All-append, All-replicate, length-append,
  length-replicate, length-take, length-set,
}
use fed_kg_rag_secure_impl.Python.{
  ok, ◌>>=◌, >>=-eq-ok, ok-injective, map_result, length-map_result,
}
use fed_kg_rag_secure_impl.Python.Sequence.{set_item, sort_by, set_item-set}
use fed_kg_rag_secure_impl.Packed.Edges.{Row}
use fed_kg_rag_secure_impl.Pages.{effective_frontier_per_owner, pool_rows}
use fed_kg_rag_secure_impl.Pages.Directory.{
  RelationPageConfig, directory_rows, blocked_directory_index, pack_descriptor,
}
use fed_kg_rag_secure_impl.Pages.Build.{
  Entry, Groups, Placed, pages_needed, windows, pack_entry, make_page, make_pages, write_descriptor,
  place_key, place_keys, entry_le, key_le, OwnerPageLayout, dummy_page, finished, grouped_edges,
  build_owner_page_layout,
}

-- What one turn of the loop has computed.
pub record PlacedKey (c : RelationPageConfig) (key : ℕ × ℕ) (records : List Entry) (p q : Placed)
    : Type 0 where
  pub required : ℕ
  pub pages : List (List ℕ)
  pub descriptor : ℕ
  pub blocked : Option ℕ
  pub needed : pages_needed (length records) c.pages.page_size ≡ ok required
  pub key_bound : required ≤ c.pages.pages_per_key
  pub read_bound : length records ≤ effective_frontier_per_owner c.pages
  pub budget : length p.pool + required ≤ c.pages.page_budget
  pub made : make_pages c required records ≡ ok pages
  pub packed : pack_descriptor c (length p.pool) required ≡ ok descriptor
  pub found : blocked_directory_index c key.0 key.1 ≡ ok blocked
  pub written :
      write_descriptor c key descriptor blocked (record p { pool = p.pool ++ pages }) ≡ ok q

pub place_key-PlacedKey :
    (c : RelationPageConfig) (key : ℕ × ℕ) (records : List Entry) (p : Placed) {q : Placed}
    → place_key c (key, records) p ≡ ok q
    → PlacedKey c key records p q
unfolding place_key
place_key-PlacedKey c key records p h = ground arith

-- Writing a descriptor leaves the pool and the height of the directory.
pub write_descriptor-keeps :
    (c : RelationPageConfig) (key : ℕ × ℕ) (d : ℕ) (blocked : Option ℕ) (p : Placed) {q : Placed}
    → write_descriptor c key d blocked p ≡ ok q
    → (q.pool ≡ p.pool) × (length q.directory ≡ length p.directory)
unfolding write_descriptor
write_descriptor-keeps c key d none p h = ground arith
write_descriptor-keeps c key d (some row) p {q} h =
    let (directory, e, o) =
      >>=-eq-ok (set_item p.directory row d) (λ x. ok (record p { directory = x })) h in
    let same = ok-injective o in
    (
      ap (λ (x : Placed). x.pool) (sym same),
      ap (λ (x : Placed). length x.directory) (sym same)
          ∙ ap length (set_item-set p.directory row d e).0
          ∙ length-set p.directory row d,
    )

pub length-windows :
    (page_size n : ℕ) (records : List Entry) → length (windows page_size n records) ≡ n
length-windows page_size zero records = refl
length-windows page_size (suc n) records =
    ap suc (length-windows page_size n (drop page_size records))

abbrev IsPage : RelationPageConfig → List ℕ → Type 0
IsPage c page = length page ≡ c.pages.page_size

length-make_page :
    (c : RelationPageConfig) (window : List Entry) {page : List ℕ}
    → make_page c window ≡ ok page
    → length window ≤ c.pages.page_size
    → IsPage c page
unfolding make_page
length-make_page c window h room =
    let (packed, e, o) =
      >>=-eq-ok (map_result (pack_entry c.base) window)
        (λ page. ok (page ++ replicate (c.pages.page_size - length page) 0)) h in
    ap length (sym (ok-injective o))
    ∙ length-append packed (replicate (c.pages.page_size - length packed) 0)
    ∙ omega (
      arith,
      length-map_result (pack_entry c.base) window e,
      length-replicate {A = ℕ} (c.pages.page_size - length packed) 0,
    )

windows-pages :
    (c : RelationPageConfig) (n : ℕ) (records : List Entry) {pages : List (List ℕ)}
    → map_result (make_page c) (windows c.pages.page_size n records) ≡ ok pages
    → All (IsPage c) pages
windows-pages c zero records {pages} h = subst (All (IsPage c)) (ok-injective h) tt
windows-pages c (suc n) records {pages} h =
    let size = c.pages.page_size in
    let (page, e, rest) =
      >>=-eq-ok (make_page c (take size records))
        (λ page. map_result (make_page c) (windows size n (drop size records)) >>= λ more.
          ok (page ∷ more))
        h in
    let (more, f, o) =
      >>=-eq-ok (map_result (make_page c) (windows size n (drop size records)))
        (λ more. ok (page ∷ more)) rest in
    subst (All (IsPage c)) (ok-injective o) (
      length-make_page c (take size records) e (omega (arith, length-take size records)),
      windows-pages c n (drop size records) f,
    )

pub make_pages_shape :
    (c : RelationPageConfig) (n : ℕ) (records : List Entry) {pages : List (List ℕ)}
    → make_pages c n records ≡ ok pages
    → (length pages ≡ n) × All (IsPage c) pages
unfolding make_pages
make_pages_shape c n records h =
    let sorted = sort_by entry_le records in
    (
      length-map_result (make_page c) (windows c.pages.page_size n sorted) h
          ∙ length-windows c.pages.page_size n sorted,
      windows-pages c n sorted h,
    )

-- The sizes while the keys are placed.
pub record HasShape (c : RelationPageConfig) (rows : ℕ) (p : Placed) : Type 0 where
  pub height : length p.directory ≡ rows
  pub pages : All (IsPage c) p.pool
  pub budget : length p.pool ≤ c.pages.page_budget
  pub started : 1 ≤ length p.pool

pub place_key-HasShape :
    (c : RelationPageConfig) (rows : ℕ) (group : (ℕ × ℕ) × List Entry) (p : Placed) {q : Placed}
    → HasShape c rows p
    → place_key c group p ≡ ok q
    → HasShape c rows q
place_key-HasShape c rows (key, records) p {q} s h =
    let t = place_key-PlacedKey c key records p h in
    let (count, sized) = make_pages_shape c t.required records t.made in
    let (pool, directory) = write_descriptor-keeps c key t.descriptor t.blocked _ t.written in
    let grown : length q.pool ≡ length p.pool + t.required =
      ap length pool ∙ length-append p.pool t.pages ∙ omega (arith, count) in
    record {
      height = directory ∙ s.height;
      pages =
          subst (All (IsPage c)) (sym pool) (All-append (IsPage c) p.pool t.pages s.pages sized);
      budget = omega (arith, grown, t.budget);
      started = omega (arith, grown, s.started);
    }

pub place_keys-HasShape :
    (c : RelationPageConfig) (rows : ℕ) (groups : Groups) (p : Placed) {q : Placed}
    → HasShape c rows p
    → place_keys c groups p ≡ ok q
    → HasShape c rows q
unfolding place_keys
place_keys-HasShape c rows [] p s h = subst (HasShape c rows) (ok-injective h) s
place_keys-HasShape c rows (group ∷ groups) p s h =
    let (next, e, rest) = >>=-eq-ok (place_key c group p) (place_keys c groups) h in
    place_keys-HasShape c rows groups next (place_key-HasShape c rows group p s e) rest

pub record BuiltLayout (c : RelationPageConfig) (owner : String) (edges : List Row)
    (layout : OwnerPageLayout) : Type 0 where
  pub grouped : Groups
  pub rows : ℕ
  pub placed : Placed
  pub groups : grouped_edges c owner edges ≡ ok grouped
  pub height : directory_rows c ≡ ok rows
  pub loop :
      place_keys c
        (sort_by key_le grouped)
        (record { directory = replicate rows 0; residual = []; pool = dummy_page c ∷ [] })
      ≡ ok placed
  pub result : layout ≡ finished c owner placed

pub build_owner_page_layout-BuiltLayout :
    (c : RelationPageConfig) (owner : String) (edges : List Row) {layout : OwnerPageLayout}
    → build_owner_page_layout c owner edges ≡ ok layout
    → BuiltLayout c owner edges layout
unfolding build_owner_page_layout
build_owner_page_layout-BuiltLayout c owner edges h = ground arith

-- What the sizes of a layout are.
pub record HasPublicShape (c : RelationPageConfig) (layout : OwnerPageLayout) : Type 0 where
  pub directory : directory_rows c ≡ ok (length layout.directory)
  pub pool : length layout.pages ≡ pool_rows c.pages
  pub page : All (λ page. length page ≡ c.pages.page_size) layout.pages
  pub budget : layout.realized_page_count ≤ c.pages.page_budget

-- With a positive page budget and pages per key, a built layout has the declared directory height
-- and pool height, every page has the declared size, and the realized pages stay within the
-- budget, whatever the edges are.
pub build_owner_page_layout-HasPublicShape :
    (c : RelationPageConfig) (owner : String) (edges : List Row) {layout : OwnerPageLayout}
    → 1 ≤ c.pages.page_budget
    → 1 ≤ c.pages.pages_per_key
    → build_owner_page_layout c owner edges ≡ ok layout
    → HasPublicShape c layout
unfolding pool_rows
build_owner_page_layout-HasPublicShape c owner edges {layout} some_page some_window h =
    let b = build_owner_page_layout-BuiltLayout c owner edges h in
    let empty : List ℕ = dummy_page c in
    let s =
      place_keys-HasShape c b.rows (sort_by key_le b.grouped) _
        (record {
          height = length-replicate {A = ℕ} b.rows 0;
          pages = (length-replicate {A = ℕ} c.pages.page_size 0, tt);
          budget = some_page;
          started = omega arith;
        })
        b.loop in
    let tail = c.pages.page_budget + c.pages.pages_per_key - 1 - length b.placed.pool in
    subst (HasPublicShape c) (sym b.result) (record {
      directory = b.height ∙ ap ok (sym s.height);
      pool =
          length-append b.placed.pool (replicate tail empty)
          ∙ omega (arith, length-replicate {A = List ℕ} tail empty, s.budget);
      page =
          All-append (IsPage c) b.placed.pool (replicate tail empty) s.pages
            (All-replicate (IsPage c) tail empty (length-replicate {A = ℕ} c.pages.page_size 0));
      budget = s.budget;
    })
