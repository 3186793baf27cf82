-- ===== src/Pages/Ranking.antt =====
-- The ranking of `evaluate_paged_cleartext`: what its sorting, its selection loop and its rows show.
mod Order
use mathlib.Core.List.{Permᴰ}
use fed_kg_rag_secure_impl.Prelude.{
  ℕ, zero, suc, ◌+◌, ◌-◌, ◌≤◌, ◌≡◌, inl, inr, refl, sym, ap, ap₂, ◌∙◌, Bool, true, false, Option,
  none, some, List, [], ◌∷◌, map, arith, get_elem?, take, ◌==◌, ◌&&◌, Bool-cases, ==→eq,
  if◌then◌else◌,
}
use fed_kg_rag_secure_impl.Python.{contains, nat_key}
use fed_kg_rag_secure_impl.Python.Sequence.{sort_by}
use fed_kg_rag_secure_impl.Config.{PublicConfig, range_from}
use fed_kg_rag_secure_impl.Pages.Evaluate.{
  Candidate, candidate_le, select, ResultRow, result_rows, rank,
}
use Order.{IsRanked, sort_by-IsRanked, sort_by-Permᴰ}

-- The candidates with none of the terminals.
abbrev pub without : List ℕ → List Candidate → List Candidate
without ts [] = []
without ts (a ∷ cs) = if contains a.terminal ts then without ts cs else a ∷ without ts cs

-- Of the candidates with the same terminal, only the first.
abbrev pub firsts : List Candidate → List Candidate
firsts [] = []
firsts (a ∷ cs) = a ∷ without (a.terminal ∷ []) (firsts cs)

-- The candidates that may be shown.
abbrev pub eligible : Bool → List Candidate → List Candidate
eligible deduplicate cs = if deduplicate then firsts cs else cs

-- The row that shows a candidate, and the row of none.
abbrev pub row_of : Option Candidate → ResultRow
row_of none = record { valid = 0; left_evidence = 0; right_evidence = 0; score = 0 }
row_of (some a) = record {
  valid = 1;
  left_evidence = a.left;
  right_evidence = a.right;
  score = a.score;
}

without-without :
    (t : ℕ) (ts : List ℕ) (cs : List Candidate)
    → without ts (without (t ∷ []) cs) ≡ without (t ∷ ts) cs
without-without t ts [] = refl
without-without t ts (a ∷ cs) = elim (Bool-cases (a.terminal == t)) [
  | inl same ↦ rw same (without-without t ts cs)
  | inr apart ↦ elim (Bool-cases (contains a.terminal ts)) [
    | inl there ↦ rw (apart, there) (without-without t ts cs)
    | inr new ↦ rw (apart, new) (ap (λ l. a ∷ l) (without-without t ts cs))
  ]
]

without_again :
    (t : ℕ) (ts : List ℕ) (cs : List Candidate)
    → contains t ts ≡ true
    → without (t ∷ ts) cs ≡ without ts cs
without_again t ts [] h = refl
without_again t ts (a ∷ cs) h = elim (Bool-cases (a.terminal == t)) [
  | inl same ↦
      let there : contains a.terminal ts ≡ true = ap (λ n. contains n ts) (==→eq _ _ same) ∙ h in
      rw (same, there) (without_again t ts cs h)
  | inr apart ↦ elim (Bool-cases (contains a.terminal ts)) [
    | inl there ↦ rw (apart, there) (without_again t ts cs h)
    | inr new ↦ rw (apart, new) (ap (λ l. a ∷ l) (without_again t ts cs h))
  ]
]

without_none : (cs : List Candidate) → without [] cs ≡ cs
without_none [] = refl
without_none (a ∷ cs) = ap (λ l. a ∷ l) (without_none cs)

-- With room for some more, the loop selects as many of the candidates whose terminal is new.
select_all :
    (top_k : ℕ) (seen : List ℕ) (chosen room : ℕ) (cs : List Candidate)
    → top_k ≡ chosen + suc room
    → select false top_k seen chosen cs ≡ take (suc room) cs
unfolding select
select_all top_k seen chosen room [] h = refl
select_all top_k seen chosen zero (a ∷ cs) h =
    let full : (chosen + 1 == top_k) ≡ true = ground arith in rw full refl
select_all top_k seen chosen (suc room) (a ∷ cs) h =
    let more : (chosen + 1 == top_k) ≡ false = ground arith in
    rw more (
      ap (λ l. a ∷ l)
        (select_all top_k (a.terminal ∷ seen) (chosen + 1) room cs (omega (arith, h))))

select-firsts :
    (top_k : ℕ) (seen : List ℕ) (chosen room : ℕ) (cs : List Candidate)
    → top_k ≡ chosen + suc room
    → select true top_k seen chosen cs ≡ take (suc room) (without seen (firsts cs))
unfolding select
select-firsts top_k seen chosen room [] h = refl
select-firsts top_k seen chosen room (a ∷ cs) h = elim (Bool-cases (contains a.terminal seen)) [
  | inl there ↦ rw there (
      select-firsts top_k seen chosen room cs h
      ∙ ap (take (suc room)) (
          sym (
            without-without a.terminal seen (firsts cs)
            ∙ without_again a.terminal seen (firsts cs) there)))
  | inr new ↦
      rw new (kept (λ r e. select-firsts top_k (a.terminal ∷ seen) (chosen + 1) r cs e) room h)
]
  where
    kept :
        ((r : ℕ)
          → top_k ≡ chosen + 1 + suc r
          → select true top_k (a.terminal ∷ seen) (chosen + 1) cs
            ≡ take (suc r) (without (a.terminal ∷ seen) (firsts cs)))
        → (room : ℕ) → top_k ≡ chosen + suc room
        → (if chosen + 1 == top_k
            then a ∷ []
            else a ∷ select true top_k (a.terminal ∷ seen) (chosen + 1) cs)
          ≡ take (suc room) (a ∷ without seen (without (a.terminal ∷ []) (firsts cs)))
    kept later zero h = let full : (chosen + 1 == top_k) ≡ true = ground arith in rw full refl
    kept later (suc room) h =
        let more : (chosen + 1 == top_k) ≡ false = ground arith in
        rw more (
          ap (λ l. a ∷ l)
            (later room (omega (arith, h))
              ∙ ap (take (suc room)) (sym (without-without a.terminal seen (firsts cs)))))

select-eligible :
    (deduplicate : Bool) (top_k : ℕ) (cs : List Candidate)
    → 1 ≤ top_k
    → select deduplicate top_k [] 0 cs ≡ take top_k (eligible deduplicate cs)
select-eligible deduplicate zero cs h = absurd (omega arith)
select-eligible false (suc room) cs h = select_all (suc room) [] 0 room cs (omega arith)
select-eligible true (suc room) cs h =
    select-firsts (suc room) [] 0 room cs (omega arith)
    ∙ ap (take (suc room)) (without_none (firsts cs))

map-range_from :
    (f : ℕ → ResultRow) (lo n : ℕ)
    → map f (range_from (lo + 1) n) ≡ map (λ i. f (suc i)) (range_from lo n)
map-range_from f lo zero = refl
map-range_from f lo (suc n) = ap₂ ◌∷◌ (ap f (omega arith)) (map-range_from f (lo + 1) n)

result_rows-take :
    (n : ℕ) (cs : List Candidate)
    → result_rows n (take n cs) ≡ map (λ i. row_of (get_elem? cs i)) (range_from 0 n)
unfolding result_rows
result_rows-take zero cs = refl
result_rows-take (suc n) [] =
    ap (λ l. row_of none ∷ l)
      (ap (result_rows n) (take_none n)
        ∙ result_rows-take n []
        ∙ sym (map-range_from (λ i. row_of (get_elem? [] i)) 0 n))
  where
    take_none : (m : ℕ) → [] ≡ take {A = Candidate} m []
    take_none zero = refl
    take_none (suc m) = refl
result_rows-take (suc n) (a ∷ cs) =
    ap (λ l. row_of (some a) ∷ l)
      (result_rows-take n cs ∙ sym (map-range_from (λ i. row_of (get_elem? (a ∷ cs) i)) 0 n))

-- The rows of a ranking: `ordered` has the candidates best first, and the row of rank `i` shows the
-- `i`-th of those that may be shown.
pub record IsTop (base : PublicConfig) (cs : List Candidate) (rows : List ResultRow) : Type 0 where
  pub ordered : List Candidate
  pub ranked : IsRanked ordered
  pub same : Permᴰ ordered cs
  pub shown :
      rows
      ≡ map
          (λ i. row_of (get_elem? (eligible base.deduplicate_terminal_answers ordered) i))
          (range_from 0 base.top_k)

-- With a positive top k, the candidates have an arrangement in which each comes before all later
-- ones (a higher score, or the same score and an earlier order, then the smaller identifiers), and
-- the ranking has top k rows, of which the row of rank i shows the i-th candidate of this
-- arrangement, or of its candidates that are the first with their terminal when terminals are
-- deduplicated, and is the zero row when there is none.
pub rank-IsTop :
    (base : PublicConfig) (cs : List Candidate) → 1 ≤ base.top_k → IsTop base cs (rank base cs)
unfolding rank
rank-IsTop base cs h =
    let ordered = sort_by candidate_le cs in
    let deduplicate = base.deduplicate_terminal_answers in
    record {
      ordered = ordered;
      ranked = sort_by-IsRanked cs;
      same = sort_by-Permᴰ cs;
      shown =
          ap (result_rows base.top_k) (select-eligible deduplicate base.top_k ordered h)
          ∙ result_rows-take base.top_k (eligible deduplicate ordered);
    }
