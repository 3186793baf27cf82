-- ===== src/EvidenceHandles.antt =====
-- doram_t2_3pc/evidence_handles.py: the redrawing of evidence handles. An edge is the fields of a
-- dictionary, or none when the value is no dictionary; the results of the random generator are an
-- argument, by the number of the edge and the number of the draw. The detection of a leak reads only
-- the handles of the edges, so an owner's edges stand for themselves as the list of their handles; the
-- comparison of floating point numbers in it is an argument.
pub mod Blind
pub mod Leak
use fed_kg_rag_secure_impl.Prelude.{
  ℕ, zero, suc, ◌+◌, ◌-◌, String, Bool, true, false, Option, none, some, List, [], ◌∷◌, ltb, leb,
  min, max, length, ◌&&◌, ◌||◌, if◌then◌else◌,
}
use fed_kg_rag_secure_impl.Prelude.Bits.{◌<<<◌}
use fed_kg_rag_secure_impl.Python.{
  Result, ok, err, value_error, ◌>>=◌, ◌>>◌, raise_if, lookup, insert, contains, string_key,
  nat_key, Json, int, pos,
}
use fed_kg_rag_secure_impl.Python.Counter.{Counter, count_all}
use fed_kg_rag_secure_impl.Python.Sequence.{sort_by}

abbrev pub Fields : Type 0
Fields = List (String × Json)

-- `not isinstance(edge, dict) or "evidence" not in edge`
abbrev has_handle : Fields → Option Json → Result Fields
has_handle fields none = err value_error
has_handle fields (some handle) = ok fields

abbrev pub checked_edge : Option Fields → Result Fields
checked_edge none = err value_error
checked_edge (some fields) = has_handle fields (lookup "evidence" fields)

-- The loop over the draws of one edge, with its `else`.
unfoldable pub fresh_handle : (ℕ → ℕ) → ℕ → ℕ → List ℕ → Result ℕ
fresh_handle draws attempt zero seen = err value_error
fresh_handle draws attempt (suc more) seen =
    let rest = fresh_handle draws (attempt + 1) more seen in
    if contains (draws attempt) seen then rest else ok (draws attempt)

abbrev pub draw_limit : ℕ
draw_limit = 64

unfoldable pub allocate_from :
    (ℕ → ℕ → ℕ) → ℕ → List (Option Fields) → List ℕ → Result (List Fields)
allocate_from draws index [] seen = ok []
allocate_from draws index (edge ∷ edges) seen = do
  fields ← checked_edge edge
  handle ← fresh_handle (draws index) 0 draw_limit seen
  rest ← allocate_from draws (index + 1) edges (handle ∷ seen)
  ok (insert "evidence" (int (pos handle)) fields ∷ rest)

-- `draws index attempt` is the result of `generator.randrange(1, span + 1)`.
unfoldable pub allocate_owner_blind_handles :
    List (Option Fields) → ℕ → (ℕ → ℕ → ℕ) → Result (List Fields)
allocate_owner_blind_handles edges evidence_bits draws = do
  raise_if (ltb evidence_bits 2) value_error
  allocate_from draws 0 edges []

abbrev pub least : ℕ → List ℕ → ℕ
least n [] = n
least n (m ∷ handles) = min n (least m handles)

abbrev pub greatest : ℕ → List ℕ → ℕ
greatest n [] = n
greatest n (m ∷ handles) = max n (greatest m handles)

-- The least and the greatest handle of an owner.
abbrev pub Span : Type 0
Span = String × (ℕ × ℕ)

unfoldable pub handle_ranges : List (String × List ℕ) → List Span
handle_ranges [] = []
handle_ranges ((owner, []) ∷ owners) = handle_ranges owners
handle_ranges ((owner, h ∷ handles) ∷ owners) =
    (owner, (least h handles, greatest h handles)) ∷ handle_ranges owners

abbrev pub span_le : Span → Span → Bool
span_le a b = leb a.1.0 b.1.0

-- `all(spans[i][1][1] < spans[i + 1][1][0] for i in range(len(spans) - 1))`
unfoldable pub in_a_row : List Span → Bool
in_a_row [] = true
in_a_row (a ∷ []) = true
in_a_row (a ∷ b ∷ spans) = ltb a.1.1 b.1.0 && in_a_row (b ∷ spans)

unfoldable pub disjoint_ranges : List Span → Bool
disjoint_ranges ranges = in_a_row (sort_by span_le ranges)

unfoldable pub count_handles : List (String × List ℕ) → Counter ℕ → Counter ℕ
count_handles [] counts = counts
count_handles ((owner, handles) ∷ owners) counts = count_handles owners (count_all handles counts)

unfoldable pub duplicates_of : Counter ℕ → ℕ
duplicates_of [] = 0
duplicates_of ((handle, count) ∷ counts) = (if ltb 1 count then 1 else 0) + duplicates_of counts

unfoldable pub handle_total : Counter ℕ → ℕ
handle_total [] = 0
handle_total ((handle, count) ∷ counts) = count + handle_total counts

-- The first form is returned when fewer than two owners hold edges.
pub data LeakReport : Type 0 where
  nothing_to_distinguish : List Span → LeakReport
  compared : Bool → Bool → Bool → List Span → ℕ → LeakReport

-- `if evidence_bits is not None and duplicates:`
abbrev pub suspicion : (ℕ → ℕ → ℕ → Bool) → Option ℕ → ℕ → ℕ → Bool
suspicion exceeds none duplicates total = false
suspicion exceeds (some bits) zero total = false
suspicion exceeds (some bits) (suc more) total = exceeds bits (suc more) total

-- `exceeds bits duplicates total` is `duplicates > max(1.0, 10 * expected)`.
unfoldable pub handles_leak_owner :
    (ℕ → ℕ → ℕ → Bool) → List (String × List ℕ) → Option ℕ → LeakReport
handles_leak_owner exceeds owner_edges evidence_bits =
    let ranges = handle_ranges owner_edges in
    let counts = count_handles owner_edges [] in
    let suspicious = suspicion exceeds evidence_bits (duplicates_of counts) (handle_total counts) in
    if ltb (length ranges) 2
    then nothing_to_distinguish ranges
    else compared (disjoint_ranges ranges || suspicious) (disjoint_ranges ranges) suspicious ranges
        (duplicates_of counts)
