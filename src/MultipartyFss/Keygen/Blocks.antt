-- ===== src/MultipartyFss/Keygen/Blocks.antt =====
-- The blocks of the key share of a party: the seed of each column that the party holds.
use native.Mathlib.Nat.{suc-mul}
use mathlib.Core.Option.{some-injective}
use fed_kg_rag_secure_impl.Prelude.{
  ℕ, zero, suc, ◌+◌, ◌-◌, ◌*◌, ◌<◌, ◌≤◌, ◌≡◌, refl, ap, ◌∙◌, some, List, [], ◌∷◌, ◌++◌, map, arith,
  length, length-append, get_elem?, get_or, take, drop, All, get_elem?-append_left,
  get_elem?-append_right, drop-append_add, take-append_length, if◌then◌else◌,
}
use fed_kg_rag_secure_impl.Python.{ok}
use fed_kg_rag_secure_impl.Config.{range_from}
use fed_kg_rag_secure_impl.MultipartyFss.Parity.{party_holds}
use fed_kg_rag_secure_impl.MultipartyFss.Arrays.{Bytes}
use fed_kg_rag_secure_impl.MultipartyFss.Keygen.{row_blocks, party_blocks, zero_block, join}

pub get_elem?-get_or {ℓ} :
    {A : Type ℓ} (xs : List A) (i : ℕ) (d : A)
    → i < length xs
    → get_elem? xs i ≡ some (get_or xs i d)
get_elem?-get_or [] i d h = elim h [ ]
get_elem?-get_or (x ∷ xs) zero d h = refl
get_elem?-get_or (x ∷ xs) (suc i) d h = get_elem?-get_or xs i d (omega arith)

pub get_elem?-map-range_from {ℓ} :
    {A : Type ℓ} (f : ℕ → A) (lo n k : ℕ)
    → k < n
    → get_elem? (map f (range_from lo n)) k ≡ some (f (lo + k))
get_elem?-map-range_from f lo zero k h = absurd (omega arith)
get_elem?-map-range_from f lo (suc n) zero h =
    let here : lo ≡ lo + 0 = omega arith in ap (λ (t : ℕ). some (f t)) here
get_elem?-map-range_from f lo (suc n) (suc k) h =
    let there : lo + 1 + k ≡ lo + suc k = omega arith in
    get_elem?-map-range_from f (lo + 1) n k (omega arith) ∙ ap (λ (t : ℕ). some (f t)) there

pub length-map-range_from {ℓ} :
    {A : Type ℓ} (f : ℕ → A) (lo n : ℕ) → length (map f (range_from lo n)) ≡ n
length-map-range_from f lo zero = refl
length-map-range_from f lo (suc n) = ap suc (length-map-range_from f (lo + 1) n)

pub All-map-range_from {ℓ κ} :
    {A : Type ℓ} (P : A → Type κ) (f : ℕ → A) (lo n : ℕ)
    → ((k : ℕ) → P (f k))
    → All P (map f (range_from lo n))
All-map-range_from P f lo zero h = tt
All-map-range_from P f lo (suc n) h = (h lo, All-map-range_from P f (lo + 1) n h)

-- The block of a party at a column.
abbrev pub held_block : List ℕ → (ℕ → Bytes) → ℕ → ℕ → Bytes
held_block columns seed i j = if party_holds (get_or columns j 0) i then seed j else zero_block

abbrev pub grid_block : List (List ℕ) → (ℕ → ℕ → Bytes) → ℕ → ℕ → ℕ → Bytes
grid_block arrays seed i row j = held_block (get_or arrays row []) (seed row) i j

abbrev pub grid : List (List ℕ) → (ℕ → ℕ → Bytes) → ℕ → ℕ → ℕ → ℕ → List Bytes
grid arrays seed per_row i row zero = []
grid arrays seed per_row i row (suc more) =
    map (grid_block arrays seed i row) (range_from 0 per_row)
    ++ grid arrays seed per_row i (row + 1) more

row_blocks-ok :
    (columns : List ℕ) (seed : ℕ → Bytes) (i j more : ℕ)
    → j + more ≤ length columns
    → row_blocks columns seed i j more ≡ ok (map (held_block columns seed i) (range_from j more))
unfolding row_blocks
row_blocks-ok columns seed i j zero h = refl
row_blocks-ok columns seed i j (suc more) h =
    let here = get_elem?-get_or columns j 0 (omega arith) in
    let ih = row_blocks-ok columns seed i (j + 1) more (omega arith) in rw (here, ih) refl

pub All-get_or {ℓ κ} :
    {A : Type ℓ} (P : A → Type κ) (xs : List A) (i : ℕ) (d : A)
    → All P xs
    → i < length xs
    → P (get_or xs i d)
All-get_or P [] i d all h = elim h [ ]
All-get_or P (x ∷ xs) zero d all h = all.0
All-get_or P (x ∷ xs) (suc i) d all h = All-get_or P xs i d all.1 (omega arith)

pub party_blocks-ok :
    (arrays : List (List ℕ)) (seed : ℕ → ℕ → Bytes) (per_row i row more : ℕ)
    → All (λ (columns : List ℕ). length columns ≡ per_row) arrays
    → row + more ≤ length arrays
    → party_blocks arrays seed per_row i row more ≡ ok (grid arrays seed per_row i row more)
unfolding party_blocks
party_blocks-ok arrays seed per_row i row zero full h = refl
party_blocks-ok arrays seed per_row i row (suc more) full h =
    let columns = get_or arrays row [] in
    let here = get_elem?-get_or arrays row [] (omega arith) in
    let wide =
      All-get_or (λ (columns : List ℕ). length columns ≡ per_row) arrays row [] full
        (omega arith) in
    let blocks = row_blocks-ok columns (seed row) i 0 per_row (omega arith) in
    let ih = party_blocks-ok arrays seed per_row i (row + 1) more full (omega arith) in
    rw (here, blocks, ih) refl

pub length-grid :
    (arrays : List (List ℕ)) (seed : ℕ → ℕ → Bytes) (per_row i row more : ℕ)
    → length (grid arrays seed per_row i row more) ≡ more * per_row
length-grid arrays seed per_row i row zero = omega arith
length-grid arrays seed per_row i row (suc more) = omega (
  arith,
  length-append (map (grid_block arrays seed i row) (range_from 0 per_row))
      (grid arrays seed per_row i (row + 1) more),
  length-map-range_from (grid_block arrays seed i row) 0 per_row,
  length-grid arrays seed per_row i (row + 1) more,
  suc-mul more per_row,
)

pub get_elem?-grid :
    (arrays : List (List ℕ)) (seed : ℕ → ℕ → Bytes) (per_row i row more k j : ℕ)
    → k < more
    → j < per_row
    → get_elem? (grid arrays seed per_row i row more) (k * per_row + j)
      ≡ some (grid_block arrays seed i (row + k) j)
get_elem?-grid arrays seed per_row i row zero k j h small = absurd (omega arith)
get_elem?-grid arrays seed per_row i row (suc more) zero j h small =
    let first : 0 * per_row + j ≡ j = omega arith in
    let column : 0 + j ≡ j = omega arith in
    let same_row : row ≡ row + 0 = omega arith in
    let blocks = map (grid_block arrays seed i row) (range_from 0 per_row) in
    let inside : j < length blocks =
      omega (arith, length-map-range_from (grid_block arrays seed i row) 0 per_row) in
    ap (get_elem? (blocks ++ grid arrays seed per_row i (row + 1) more)) first
    ∙ get_elem?-append_left blocks (grid arrays seed per_row i (row + 1) more) j inside
    ∙ get_elem?-map-range_from (grid_block arrays seed i row) 0 per_row j small
    ∙ ap (λ (t : ℕ). some (grid_block arrays seed i row t)) column
    ∙ ap (λ (t : ℕ). some (grid_block arrays seed i t j)) same_row
get_elem?-grid arrays seed per_row i row (suc more) (suc k) j h small =
    let blocks = map (grid_block arrays seed i row) (range_from 0 per_row) in
    let wide = length-map-range_from (grid_block arrays seed i row) 0 per_row in
    let behind : length blocks ≤ suc k * per_row + j = omega (arith, wide, suc-mul k per_row) in
    let left : suc k * per_row + j - length blocks ≡ k * per_row + j =
      omega (arith, wide, suc-mul k per_row) in
    let same_row : row + 1 + k ≡ row + suc k = omega arith in
    get_elem?-append_right blocks (grid arrays seed per_row i (row + 1) more) (suc k * per_row + j)
      behind
    ∙ ap (get_elem? (grid arrays seed per_row i (row + 1) more)) left
    ∙ get_elem?-grid arrays seed per_row i (row + 1) more k j (omega arith) small
    ∙ ap (λ (t : ℕ). some (grid_block arrays seed i t j)) same_row

-- Block `k` of the joined blocks of one width.
pub take-drop-join :
    (w : ℕ) (blocks : List Bytes) (k : ℕ) {b : Bytes}
    → All (λ (b : Bytes). length b ≡ w) blocks
    → get_elem? blocks k ≡ some b
    → take w (drop (k * w) (join blocks)) ≡ b
take-drop-join w [] k all found = cc
take-drop-join w (x ∷ blocks) zero {b} all found =
    let start : 0 * w ≡ 0 = omega arith in
    ap (λ (n : ℕ). take w (drop n (x ++ join blocks))) start
    ∙ take-append_length x (join blocks) w all.0
    ∙ some-injective x b found
take-drop-join w (x ∷ blocks) (suc k) all found =
    let skip : suc k * w ≡ length x + k * w = omega (arith, all.0, suc-mul k w) in
    ap (take w) (drop-append_add x (join blocks) (suc k * w) (k * w) skip)
    ∙ take-drop-join w blocks k all.1 found

pub length-join :
    (w : ℕ) (blocks : List Bytes)
    → All (λ (b : Bytes). length b ≡ w) blocks
    → length (join blocks) ≡ length blocks * w
length-join w [] all = omega arith
length-join w (x ∷ blocks) all = omega (
  arith,
  length-append x (join blocks),
  length-join w blocks all.1,
  all.0,
  suc-mul (length blocks) w,
)
