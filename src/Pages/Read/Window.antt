-- ===== src/Pages/Read/Window.antt =====
-- The window of pages of one descriptor.
use fed_kg_rag_secure_impl.Prelude.{
  ℕ, zero, suc, ◌+◌, ◌-◌, ◌*◌, ◌<◌, ◌≤◌, ◌≡◌, refl, sym, ap, ap₂, ◌∙◌, subst, false, some, List, [],
  ◌∷◌, ◌++◌, arith, length, replicate, take, drop, get_elem?, All, All-take, All-drop, ltb, lt→ltb,
  take-append-drop, length-drop,
}
use mathlib.Core.List.{append_assoc, append-nil}
use fed_kg_rag_secure_impl.Python.{
  ok, map_result, map_result-append, map_result-cons, length-map_result,
}
use fed_kg_rag_secure_impl.Python.Sequence.{sort_by, length-sort_by, All-sort_by}
use fed_kg_rag_secure_impl.Config.{range_from}
use fed_kg_rag_secure_impl.Pages.Directory.{RelationPageConfig}
use fed_kg_rag_secure_impl.Pages.Build.{
  Entry, OwnerPageLayout, windows, make_page, make_pages, entry_le,
}
use fed_kg_rag_secure_impl.Pages.Build.Shape.{length-windows}
use fed_kg_rag_secure_impl.Pages.Evaluate.{empty_slot, read_page, read_window, matches, concat}
use fed_kg_rag_secure_impl.Pages.Read.Slots.{
  HasTarget, matches-append, matches-replicate, matches-HasTarget, read_slots-inactive,
  read_slots-make_page,
}

concat-append {ℓ} :
    {A : Type ℓ} (xss yss : List (List A)) → concat (xss ++ yss) ≡ concat xss ++ concat yss
concat-append [] yss = refl
concat-append (xs ∷ xss) yss =
    ap (λ l. xs ++ l) (concat-append xss yss) ∙ sym (append_assoc xs (concat xss) (concat yss))

range_from-append : (lo n m : ℕ) → range_from lo (n + m) ≡ range_from lo n ++ range_from (lo + n) m
range_from-append lo zero m = ap₂ range_from (omega arith) (omega arith)
range_from-append lo (suc n) m =
    let longer : suc n + m ≡ suc (n + m) = omega arith in
    let next : lo + 1 + n ≡ lo + suc n = omega arith in
    ap (range_from lo) longer
    ∙ ap (λ (l : List ℕ). lo ∷ l)
        (range_from-append (lo + 1) n m
          ∙ ap (λ (t : ℕ). range_from (lo + 1) n ++ range_from t m) next)

range_split : (n m all : ℕ) → n + m ≡ all → range_from 0 all ≡ range_from 0 n ++ range_from n m
range_split n m all h =
    let start : 0 + n ≡ n = omega arith in
    ap (range_from 0) (sym h)
    ∙ range_from-append 0 n m
    ∙ ap (λ (t : ℕ). range_from 0 n ++ range_from t m) start

concat-windows :
    (page_size n : ℕ) (es : List Entry)
    → length es ≤ n * page_size
    → concat (windows page_size n es) ≡ es
concat-windows page_size zero [] h = refl
concat-windows page_size zero (e ∷ es) h = absurd (omega arith)
concat-windows page_size (suc n) es h =
    ap (λ l. take page_size es ++ l)
      (concat-windows page_size n (drop page_size es) (omega (arith, length-drop page_size es, h)))
    ∙ take-append-drop page_size es

windows-HasTarget :
    (page_size n : ℕ) (es : List Entry)
    → All HasTarget es
    → All (All HasTarget) (windows page_size n es)
windows-HasTarget page_size zero es h = tt
windows-HasTarget page_size (suc n) es h = (
  All-take HasTarget page_size es h,
  windows-HasTarget page_size n (drop page_size es) (All-drop HasTarget page_size es h),
)

module _ (c : RelationPageConfig) (layout : OwnerPageLayout) (page_base page_count : ℕ) where
  read_page-active :
      (k : ℕ) (window : List Entry) {page : List ℕ}
      → All HasTarget window
      → make_page c window ≡ ok page
      → k < page_count
      → get_elem? layout.pages (page_base + k) ≡ some page
      → (slots : List Entry) × (read_page c layout page_base page_count k ≡ ok slots)
        × (matches slots ≡ window)
  unfolding read_page
  read_page-active k window targets made active stored =
      let (n, e) = read_slots-make_page c window targets made in
      (
        window ++ replicate n empty_slot,
        rw (lt→ltb k page_count active, stored) e,
        matches-append window (replicate n empty_slot)
            ∙ ap₂ (λ (xs ys : List Entry). xs ++ ys) (matches-HasTarget window targets)
                (matches-replicate n)
            ∙ append-nil window,
      )

  -- The pages of the key, from page number `k`.
  read_pages-active :
      (k : ℕ) (ws : List (List Entry)) (pages : List (List ℕ))
      → All (All HasTarget) ws
      → map_result (make_page c) ws ≡ ok pages
      → k + length ws ≤ page_count
      → ((j : ℕ) → j < length ws → get_elem? layout.pages (page_base + (k + j)) ≡ get_elem? pages j)
      → (slots : List (List Entry)) × (map_result
            (read_page c layout page_base page_count)
            (range_from k (length ws))
          ≡ ok slots)
        × (matches (concat slots) ≡ concat ws)
  read_pages-active k [] pages targets made room stored = ([], refl, refl)
  read_pages-active k (w ∷ ws) [] targets made room stored =
      absurd (omega (arith, length-map_result (make_page c) (w ∷ ws) made))
  read_pages-active k (w ∷ ws) (page ∷ pages) targets made room stored =
      let (first, others) = map_result-cons (make_page c) w ws page pages made in
      let (slots, e, m) = read_page-active k w targets.0 first (omega (arith, room)) (
        subst (λ (t : ℕ). get_elem? layout.pages (page_base + t) ≡ some page) (omega arith)
          (stored 0 (omega arith))) in
      let (more, es, ms) =
        read_pages-active (k + 1) ws pages targets.1 others (omega (arith, room)) (λ j h.
          subst (λ (t : ℕ). get_elem? layout.pages (page_base + t) ≡ get_elem? pages j)
            (omega arith) (stored (suc j) (omega arith))) in
      (
        slots ∷ more,
        rw (e, es),
        matches-append slots (concat more) ∙ ap₂ (λ (xs ys : List Entry). xs ++ ys) m ms,
      )

  -- Page numbers beyond the count read the dummy page.
  pub read_pages-inactive :
      (k m : ℕ) {page : List ℕ}
      → page_count ≤ k
      → get_elem? layout.pages 0 ≡ some page
      → (slots : List (List Entry)) × (map_result
            (read_page c layout page_base page_count)
            (range_from k m)
          ≡ ok slots)
        × (matches (concat slots) ≡ [])
  unfolding read_page
  read_pages-inactive k zero beyond dummy = ([], refl, refl)
  read_pages-inactive k (suc m) {page} beyond dummy =
      let (more, es, ms) = read_pages-inactive (k + 1) m (omega arith) dummy in
      let empty : List Entry = replicate (length page) empty_slot in
      let off : ltb k page_count ≡ false = ground arith in
      (
        empty ∷ more,
        rw (off, dummy, read_slots-inactive c.base page, es),
        matches-append empty (concat more)
            ∙ ap₂ (λ (xs ys : List Entry). xs ++ ys) (matches-replicate (length page)) ms,
      )

-- The window of a stored key holds its entries, sorted.
pub read_window-stored :
    (c : RelationPageConfig) (layout : OwnerPageLayout) (page_base n : ℕ) (records : List Entry)
    {pages : List (List ℕ)} {dummy : List ℕ}
    → All HasTarget records
    → make_pages c n records ≡ ok pages
    → n ≤ c.pages.pages_per_key
    → length records ≤ n * c.pages.page_size
    → ((j : ℕ) → j < n → get_elem? layout.pages (page_base + j) ≡ get_elem? pages j)
    → get_elem? layout.pages 0 ≡ some dummy
    → (slots : List Entry) × (read_window c layout (page_base, n) ≡ ok slots)
      × (matches slots ≡ sort_by entry_le records)
unfolding read_window make_pages
read_window-stored c layout page_base n records {pages} targets made bound room stored dummy =
    let size = c.pages.page_size in
    let sorted = sort_by entry_le records in
    let ws = windows size n sorted in
    let rest = c.pages.pages_per_key - n in
    let count : length ws ≡ n = length-windows size n sorted in
    let (active, e, m) =
      read_pages-active c layout page_base n 0 ws pages
        (windows-HasTarget size n sorted (All-sort_by entry_le HasTarget records targets)) made
        (omega (arith, count))
        (λ j h.
          subst (λ (t : ℕ). get_elem? layout.pages (page_base + t) ≡ get_elem? pages j)
            (omega arith) (stored j (omega (arith, count, h)))) in
    let (inactive, e', m') = read_pages-inactive c layout page_base n n rest (omega arith) dummy in
    let range : range_from 0 c.pages.pages_per_key ≡ range_from 0 (length ws) ++ range_from n rest =
      range_split n rest c.pages.pages_per_key (omega (arith, bound))
      ∙ ap (λ (t : ℕ). range_from 0 t ++ range_from n rest) (sym count) in
    (
      concat (active ++ inactive),
      rw (
        range,
        map_result-append (read_page c layout page_base n) (range_from 0 (length ws))
            (range_from n rest) active inactive e e',
      ),
      ap matches (concat-append active inactive)
          ∙ matches-append (concat active) (concat inactive)
          ∙ ap₂ (λ (xs ys : List Entry). xs ++ ys) m m'
          ∙ append-nil (concat ws)
          ∙ concat-windows size n sorted (omega (arith, room, length-sort_by entry_le records)),
    )
