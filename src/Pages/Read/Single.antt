-- ===== src/Pages/Read/Single.antt =====
-- The steps of one owner's read: the descriptor, the window of pages and the padding.
use native.Mathlib.Nat.{lt-div-mul-add, one-le-pow}
use fed_kg_rag_secure_impl.Prelude.{
  ℕ, zero, suc, ◌+◌, ◌-◌, ◌*◌, ◌/◌, ◌^◌, ◌<◌, ◌≤◌, ◌≡◌, sym, ap, ap₂, ◌∙◌, String, true, false,
  none, some, List, [], ◌++◌, arith, length, replicate, get_elem?, get_elem?-some,
  get_elem?-append_left, All, ltb, ◌==◌,
}
use fed_kg_rag_secure_impl.Prelude.Arith.{zero-mod, zero-div}
use fed_kg_rag_secure_impl.Prelude.Bits.{bit_and-mask}
use fed_kg_rag_secure_impl.Python.{Result, ok, ◌>>=◌, ok-injective, pair_key}
use fed_kg_rag_secure_impl.Python.Sequence.{sort_by, length-sort_by}
use fed_kg_rag_secure_impl.Config.{entity_count}
use fed_kg_rag_secure_impl.Pages.{
  RelationPageParameters, validate, effective_frontier_per_owner, page_base_bits,
}
use fed_kg_rag_secure_impl.Pages.Directory.{
  RelationPageConfig, relation_count, dense_directory_index, blocked_directory_index,
  unpack_descriptor,
}
use fed_kg_rag_secure_impl.Pages.Directory.Laws.{unpack_descriptor-pack_descriptor}
use fed_kg_rag_secure_impl.Pages.Build.{
  Entry, Placed, OwnerPageLayout, pages_needed, entry_le, finished,
}
use fed_kg_rag_secure_impl.Pages.Evaluate.{
  empty_slot, matches, concat, read_window, find_descriptor, compacted, read_owner,
}
use fed_kg_rag_secure_impl.Pages.Read.Slots.{HasTarget}
use fed_kg_rag_secure_impl.Pages.Read.Window.{read_window-stored, read_pages-inactive}
use fed_kg_rag_secure_impl.Pages.Read.Stored.{IsStored}

-- The bounds that accepted parameters satisfy.
pub validate-bounds :
    (p : RelationPageParameters)
    → validate p ≡ ok tt
    → (1 ≤ p.page_size) × (1 ≤ p.pages_per_key) × (2 ≤ p.page_budget)
unfolding validate
validate-bounds p h = (ground arith, ground arith, ground arith)

pages_needed-le :
    (count page_size : ℕ) {n : ℕ} → pages_needed count page_size ≡ ok n → count ≤ n * page_size
unfolding pages_needed
pages_needed-le count zero h = cc
pages_needed-le count (suc k) {n} h =
    let e : n ≡ (count + k) / suc k = sym (ok-injective h) in
    omega
      (arith, lt-div-mul-add {a = count + k} {b = suc k} (omega arith), ap (λ (t : ℕ). t * suc k) e)

-- A frontier that holds the matches is padded to its width.
compacted_lem :
    (width : ℕ) (slots found : List Entry)
    → matches slots ≡ found
    → length found ≤ width
    → compacted width slots ≡ ok (found ++ replicate (width - length found) empty_slot)
unfolding compacted
compacted_lem width slots found same room =
    let enough : ltb width (length found) ≡ false = ground arith in rw (same, enough)

pub dense_directory_index-ok :
    (c : RelationPageConfig) (source relation : ℕ)
    → source < entity_count c.base
    → 1 ≤ relation
    → relation ≤ relation_count c
    → (i : ℕ) × (dense_directory_index c source relation ≡ ok i)
unfolding dense_directory_index
dense_directory_index-ok c source relation inside some_id id_le =
    (source * relation_count c + (relation - 1), ground arith)

blocked-dense :
    (c : RelationPageConfig) (source relation : ℕ) {i : ℕ}
    → c.type_blocks ≡ none
    → dense_directory_index c source relation ≡ ok i
    → blocked_directory_index c source relation ≡ ok (some i)
unfolding blocked_directory_index dense_directory_index relation_count
blocked-dense c source relation dense indexed =
    rw dense (ap (λ (m : Result ℕ). m >>= λ i. ok (some i)) indexed)

-- The descriptor of a key is the entry of the directory at its dense address.
pub find_descriptor-dense :
    (c : RelationPageConfig) (layout : OwnerPageLayout) (source relation : ℕ) {i d : ℕ}
    → c.type_blocks ≡ none
    → 1 ≤ source
    → dense_directory_index c source relation ≡ ok i
    → get_elem? layout.directory i ≡ some d
    → find_descriptor c layout source relation ≡ ok d
unfolding find_descriptor
find_descriptor-dense c layout source relation dense some_source indexed written =
    let real : (source == 0) ≡ false = ground arith in
    rw (real, blocked-dense c source relation dense indexed, written)

pub unpack_descriptor-zero : (c : RelationPageConfig) → unpack_descriptor c 0 ≡ (0, 0)
unfolding unpack_descriptor
unpack_descriptor-zero c =
    let k = page_base_bits c.pages in
    let some : 0 < 2 ^ k = one-le-pow k 2 (omega arith) in
    ap₂ (λ (x y : ℕ). (x, y)) (bit_and-mask k 0 ∙ zero-mod (2 ^ k) some) (zero-div (2 ^ k) some)

pub read_window-zero :
    (c : RelationPageConfig) (layout : OwnerPageLayout) {dummy : List ℕ}
    → get_elem? layout.pages 0 ≡ some dummy
    → (slots : List Entry) × (read_window c layout (0, 0) ≡ ok slots) × (matches slots ≡ [])
unfolding read_window
read_window-zero c layout dummy =
    let (slots, e, m) =
      read_pages-inactive c layout 0 0 0 c.pages.pages_per_key (omega arith) dummy in
    (concat slots, rw e, m)

-- One owner's read of a key that its tables hold.
module _ (c : RelationPageConfig) (layout : OwnerPageLayout) (source relation : ℕ)
    (es : List Entry) where
  unfoldable pub HasRead : Type 0
  HasRead =
      read_owner c layout source relation true
      ≡ ok (
          sort_by entry_le es
          ++ replicate (effective_frontier_per_owner c.pages - length es) empty_slot)

  -- From the window to the compacted frontier.
  pub read_found :
      {d : ℕ} {window : ℕ × ℕ} {slots : List Entry}
      → find_descriptor c layout source relation ≡ ok d
      → unpack_descriptor c d ≡ window
      → read_window c layout window ≡ ok slots
      → matches slots ≡ sort_by entry_le es
      → length es ≤ effective_frontier_per_owner c.pages
      → HasRead
  unfolding HasRead read_owner
  read_found {d} {window} {slots} found unpacked read same room =
      let count = length-sort_by entry_le es in
      let width = effective_frontier_per_owner c.pages in
      rw (found, unpacked, read)
        (compacted_lem width slots (sort_by entry_le es) same (omega (arith, count, room))
          ∙ ap (λ (n : ℕ). ok (sort_by entry_le es ++ replicate (width - n) empty_slot)) count)

-- A stored key is read from the finished layout.
pub read_stored :
    (c : RelationPageConfig) (owner : String) (source relation : ℕ) (es : List Entry) (p : Placed)
    → c.type_blocks ≡ none
    → 1 ≤ source
    → 1 ≤ length p.pool
    → All HasTarget es
    → IsStored c (source, relation) es p
    → HasRead c (finished c owner p) source relation es
read_stored c owner source relation es p dense some_source started targets s =
    let layout = finished c owner p in
    let (dummy, at_zero) = get_elem?-some p.pool 0 started in
    let (slots, read, same) =
      read_window-stored c layout s.page_base s.count es targets s.made s.key_bound
        (pages_needed-le (length es) c.pages.page_size s.needed)
        (λ j k.
          get_elem?-append_left p.pool _ (s.page_base + j) (omega (arith, s.inside, k))
          ∙ s.pooled j k)
        (get_elem?-append_left p.pool _ 0 started ∙ at_zero) in
    read_found c layout source relation es
      (find_descriptor-dense c layout source relation dense some_source s.indexed s.written)
      (unpack_descriptor-pack_descriptor c s.page_base s.count s.packed) read same s.read_bound
