-- ===== src/Packed/Vector/Buckets.antt =====
-- The buckets of the packed edges of each entity slot.
use mathlib.Core.List.{append_assoc, append-nil}
use fed_kg_rag_secure_impl.Prelude.{
  ℕ, zero, suc, ◌+◌, ◌≤◌, ◌≡◌, ◌≢◌, refl, sym, ap, subst, ◌∙◌, some, List, [], ◌∷◌, ◌++◌, arith,
  length, get_elem?, ◌==◌, if◌then◌else◌, Bool-cases, inl, inr, ==→eq, ==→ne,
}
use fed_kg_rag_secure_impl.Python.{
  ok, string_key, pair_key, nat_key, map_result, >>=-eq-ok, ok-injective,
}
use fed_kg_rag_secure_impl.Python.Counter.{Counter, count_of, increment}
use fed_kg_rag_secure_impl.Config.{PublicConfig, relation_frontier_per_owner}
use fed_kg_rag_secure_impl.Packed.Edges.{Row, Edge, validated_edge, pack}
use fed_kg_rag_secure_impl.Packed.Vector.{edge_key, append_at, fill_buckets}

-- The edges that leave one entity slot, in input order.
abbrev pub from_source : ℕ → List Edge → List Edge
from_source slot [] = []
from_source slot (e ∷ es) =
    if e.source == slot then e ∷ from_source slot es else from_source slot es

pub append_at_self :
    (bs : List (List ℕ)) (i v : ℕ) {b : List ℕ} {out : List (List ℕ)}
    → append_at bs i v ≡ ok out
    → get_elem? bs i ≡ some b
    → get_elem? out i ≡ some (b ++ v ∷ [])
unfolding append_at
append_at_self [] i v h g = cc
append_at_self (b ∷ bs) zero v h g = ground arith
append_at_self (b ∷ bs) (suc i) v h g =
    let (rest, e, o) = >>=-eq-ok (append_at bs i v) (λ rest. ok (b ∷ rest)) h in
    rw (← ok-injective o) (append_at_self bs i v e g)

pub append_at_other :
    (bs : List (List ℕ)) (i j v : ℕ) {out : List (List ℕ)}
    → append_at bs i v ≡ ok out
    → i ≢ j
    → get_elem? out j ≡ get_elem? bs j
unfolding append_at
append_at_other [] i j v h ne = cc
append_at_other (b ∷ bs) zero zero v h ne = absurd (ne refl)
append_at_other (b ∷ bs) zero (suc j) v h ne = rw (← ok-injective h)
append_at_other (b ∷ bs) (suc i) zero v h ne =
    let (rest, e, o) = >>=-eq-ok (append_at bs i v) (λ rest. ok (b ∷ rest)) h in
    rw (← ok-injective o)
append_at_other (b ∷ bs) (suc i) (suc j) v h ne =
    let (rest, e, o) = >>=-eq-ok (append_at bs i v) (λ rest. ok (b ∷ rest)) h in
    rw (← ok-injective o) (append_at_other bs i j v e (λ q. ne (ap suc q)))

pub length-append_at :
    (bs : List (List ℕ)) (i v : ℕ) {out : List (List ℕ)}
    → append_at bs i v ≡ ok out
    → length out ≡ length bs
unfolding append_at
length-append_at [] i v h = cc
length-append_at (b ∷ bs) zero v h = rw (← ok-injective h)
length-append_at (b ∷ bs) (suc i) v h =
    let (rest, e, o) = >>=-eq-ok (append_at bs i v) (λ rest. ok (b ∷ rest)) h in
    rw (← ok-injective o) (ap suc (length-append_at bs i v e))

-- One accepted edge: what the checks were, and what the rest of the loop starts from.
pub record Accepted (c : PublicConfig) (row : Row) (rows : List Row) (buckets : List (List ℕ))
    (counts : Counter (ℕ × ℕ)) (out : List (List ℕ)) : Type 0 where
  pub edge : Edge
  pub packed : ℕ
  pub next : List (List ℕ)
  pub validated : validated_edge c row ≡ ok edge
  pub bounded : count_of (edge_key edge) counts + 1 ≤ relation_frontier_per_owner c
  pub packs : pack c edge ≡ ok packed
  pub appended : append_at buckets edge.source packed ≡ ok next
  pub rest : fill_buckets c rows next (increment (edge_key edge) counts) ≡ ok out

pub fill_buckets-Accepted :
    (c : PublicConfig) (row : Row) (rows : List Row) (buckets : List (List ℕ))
    (counts : Counter (ℕ × ℕ)) {out : List (List ℕ)}
    → fill_buckets c (row ∷ rows) buckets counts ≡ ok out
    → Accepted c row rows buckets counts out
unfolding fill_buckets
fill_buckets-Accepted c row rows buckets counts h = ground arith

-- The buckets after the loop extend those before it by the packed edges of each slot.
pub record Filled (c : PublicConfig) (rows : List Row) (buckets out : List (List ℕ)) : Type 0 where
  pub edges : List Edge
  pub validated : map_result (validated_edge c) rows ≡ ok edges
  pub same_length : length out ≡ length buckets
  pub bucket :
      (slot : ℕ) (b : List ℕ)
      → get_elem? buckets slot ≡ some b
      → (ps : List ℕ) × (map_result (pack c) (from_source slot edges) ≡ ok ps)
        × (get_elem? out slot ≡ some (b ++ ps))

abbrev pub Extends : PublicConfig → List Edge → List (List ℕ) → ℕ → List ℕ → Type 0
Extends c edges out slot b =
    (ps : List ℕ) × (map_result (pack c) (from_source slot edges) ≡ ok ps)
    × (get_elem? out slot ≡ some (b ++ ps))

add_edge :
    (c : PublicConfig) (e : Edge) (es : List Edge) {packed : ℕ} (buckets next out : List (List ℕ))
    → pack c e ≡ ok packed
    → append_at buckets e.source packed ≡ ok next
    → (slot : ℕ) {b : List ℕ} → get_elem? buckets slot ≡ some b
    → ((b' : List ℕ) → get_elem? next slot ≡ some b' → Extends c es out slot b')
    → Extends c (e ∷ es) out slot b
add_edge c e es {packed} buckets next out packs appended slot {b} g rest =
    elim (Bool-cases (e.source == slot)) [
      | inl same ↦
          let (ps, m, o) = rest (b ++ packed ∷ []) (
            append_at_self buckets slot packed
              (subst (λ (t : ℕ). append_at buckets t packed ≡ ok next) (==→eq _ _ same) appended)
              g) in
          (packed ∷ ps, rw (same, packs, m), o ∙ ap some (append_assoc b (packed ∷ []) ps))
      | inr different ↦
          let (ps, m, o) =
            rest b
              (append_at_other buckets e.source slot packed appended (==→ne _ _ different) ∙ g) in
          (ps, rw (different, m), o)
    ]

pub fill_buckets-Filled :
    (c : PublicConfig) (rows : List Row) (buckets : List (List ℕ)) (counts : Counter (ℕ × ℕ))
    {out : List (List ℕ)}
    → fill_buckets c rows buckets counts ≡ ok out
    → Filled c rows buckets out
unfolding fill_buckets
fill_buckets-Filled c [] buckets counts h =
    let e = ok-injective h in
    record {
      edges = [];
      validated = refl;
      same_length = ap length (sym e);
      bucket = λ slot b g. ([], refl, rw (← e, append-nil) g);
    }
fill_buckets-Filled c (row ∷ rows) buckets counts {out} h =
    let a = fill_buckets-Accepted c row rows buckets counts h in
    let r = fill_buckets-Filled c rows a.next (increment (edge_key a.edge) counts) a.rest in
    record {
      edges = a.edge ∷ r.edges;
      validated = rw (a.validated, r.validated);
      same_length = r.same_length ∙ length-append_at buckets a.edge.source a.packed a.appended;
      bucket = λ slot b g.
          add_edge c a.edge r.edges buckets a.next out a.packs a.appended slot g (r.bucket slot);
    }
