-- ===== src/Packed/Vector/Counting.antt =====
-- The loops of the report and of the vector, as counts of the validated edges.
use fed_kg_rag_secure_impl.Prelude.{
  ℕ, zero, suc, ◌+◌, ◌-◌, ◌≤◌, ◌<◌, ◌≡◌, refl, sym, ap, subst, ◌∙◌, some, List, [], ◌∷◌, ◌++◌, map,
  arith, length, replicate, get_elem?, All,
}
use fed_kg_rag_secure_impl.Python.{
  ok, ◌>>=◌, string_key, pair_key, nat_key, map_result, map_result-cons, >>=-eq-ok, ok-injective,
}
use fed_kg_rag_secure_impl.Python.Counter.{
  Counter, count_of, increment, largest, count_all, count_of-increment, count_of-le-largest,
  largest_grows, largest-insert,
}
use fed_kg_rag_secure_impl.Config.{PublicConfig, relation_frontier_per_owner}
use fed_kg_rag_secure_impl.Packed.Edges.{Row, Edge, validated_edge, pack, parse_edge}
use fed_kg_rag_secure_impl.Packed.Vector.{
  edge_key, append_at, fill_buckets, flatten_buckets, count_edges,
}
use fed_kg_rag_secure_impl.Packed.Vector.Buckets.{
  length-append_at, from_source, fill_buckets-Accepted,
}

abbrev pub sources_of : List Edge → List ℕ
sources_of = map (λ (e : Edge). e.source)

abbrev pub keys_of : List Edge → List (ℕ × ℕ)
keys_of = map edge_key

record FirstCounted (c : PublicConfig) (row : Row) (rows : List Row) (s : Counter ℕ)
    (r : Counter (ℕ × ℕ)) (out : Counter ℕ × Counter (ℕ × ℕ)) : Type 0 where
  edge : Edge
  validated : validated_edge c row ≡ ok edge
  rest : count_edges c rows (increment edge.source s) (increment (edge_key edge) r) ≡ ok out

count_edges-FirstCounted :
    (c : PublicConfig) (row : Row) (rows : List Row) (s : Counter ℕ) (r : Counter (ℕ × ℕ))
    {out : Counter ℕ × Counter (ℕ × ℕ)}
    → count_edges c (row ∷ rows) s r ≡ ok out
    → FirstCounted c row rows s r out
unfolding count_edges
count_edges-FirstCounted c row rows s r h = ground arith

-- The counters of the report count the validated edges.
pub count_edges_lem :
    (c : PublicConfig) (rows : List Row) (s : Counter ℕ) (r : Counter (ℕ × ℕ))
    {out : Counter ℕ × Counter (ℕ × ℕ)}
    → count_edges c rows s r ≡ ok out
    → (es : List Edge) × (map_result (validated_edge c) rows ≡ ok es)
      × (out ≡ (count_all (sources_of es) s, count_all (keys_of es) r))
unfolding count_edges
count_edges_lem c [] s r h = ([], refl, sym (ok-injective h))
count_edges_lem c (row ∷ rows) s r h =
    let f = count_edges-FirstCounted c row rows s r h in
    let (es, v, e) =
      count_edges_lem c rows (increment f.edge.source s) (increment (edge_key f.edge) r) f.rest in
    (f.edge ∷ es, rw (f.validated, v), e)

record Validated (c : PublicConfig) (row : Row) (e : Edge) : Type 0 where
  packed : ℕ
  parsed : parse_edge c row ≡ ok e
  packs : pack c e ≡ ok packed

validated_edge-Validated :
    (c : PublicConfig) (row : Row) (e : Edge) → validated_edge c row ≡ ok e → Validated c row e
unfolding validated_edge
validated_edge-Validated c row e h =
    let (e', parsed, rest) = >>=-eq-ok (parse_edge c row) (λ e. pack c e >>= λ _. ok e) h in
    let (packed, packs, same) = >>=-eq-ok (pack c e') (λ _. ok e') rest in
    let eq : e' ≡ e = ok-injective same in
    record {
      packed = packed;
      parsed = parsed ∙ ap ok eq;
      packs = subst (λ (x : Edge). pack c x ≡ ok packed) eq packs;
    }

append_at_total :
    (bs : List (List ℕ)) (i v : ℕ)
    → i < length bs
    → (out : List (List ℕ)) × (append_at bs i v ≡ ok out)
unfolding append_at
append_at_total [] i v h = elim h [ ]
append_at_total (b ∷ bs) zero v h = ((b ++ v ∷ []) ∷ bs, refl)
append_at_total (b ∷ bs) (suc i) v h =
    let (out, e) = append_at_total bs i v (omega arith) in (b ∷ out, rw e)

-- The loop of the vector ends when the counts stay within the bound and the slots exist.
pub fill_buckets_total :
    (c : PublicConfig) (rows : List Row) (es : List Edge) (buckets : List (List ℕ))
    (r : Counter (ℕ × ℕ))
    → map_result (validated_edge c) rows ≡ ok es
    → All (λ (e : Edge). e.source < length buckets) es
    → largest (count_all (keys_of es) r) ≤ relation_frontier_per_owner c
    → (out : List (List ℕ)) × (fill_buckets c rows buckets r ≡ ok out)
unfolding fill_buckets
fill_buckets_total c [] es buckets r v slots small = (buckets, refl)
fill_buckets_total c (row ∷ rows) [] buckets r v slots small = absurd (ground arith)
fill_buckets_total c (row ∷ rows) (e ∷ es) buckets r v slots small =
    let (first, others) = map_result-cons (validated_edge c) row rows e es v in
    let packs = validated_edge-Validated c row e first in
    let (next, appended) = append_at_total buckets e.source packs.packed slots.0 in
    let bounded : count_of (edge_key e) r + 1 ≤ relation_frontier_per_owner c = ground (
      arith,
      count_of-increment (edge_key e) (edge_key e) r,
      count_of-le-largest (edge_key e) (increment (edge_key e) r),
      largest_grows (keys_of es) (increment (edge_key e) r),
    ) in
    let (out, filled) =
      fill_buckets_total c rows es next (increment (edge_key e) r) others
        (subst (λ (n : ℕ). All (λ (e : Edge). e.source < n) es)
          (sym (length-append_at buckets e.source packs.packed appended)) slots.1)
        small in
    (out, rw (first, packs.packs, appended, filled) (ground arith))

pub count_of-from_source :
    (es : List Edge) (slot : ℕ) (s : Counter ℕ)
    → count_of slot (count_all (sources_of es) s) ≡ count_of slot s + length (from_source slot es)
count_of-from_source [] slot s = omega arith
count_of-from_source (e ∷ es) slot s =
    ground (
      arith,
      count_of-from_source es slot (increment e.source s),
      count_of-increment e.source slot s,
    )

-- A loop that has ended kept every count within the bound.
pub fill_buckets_bounded :
    (c : PublicConfig) (rows : List Row) (buckets : List (List ℕ)) (r : Counter (ℕ × ℕ))
    {out : List (List ℕ)}
    → fill_buckets c rows buckets r ≡ ok out
    → largest r ≤ relation_frontier_per_owner c
    → (es : List Edge) × (map_result (validated_edge c) rows ≡ ok es)
      × (largest (count_all (keys_of es) r) ≤ relation_frontier_per_owner c)
fill_buckets_bounded c [] buckets r h small = ([], refl, small)
fill_buckets_bounded c (row ∷ rows) buckets r h small =
    let a = fill_buckets-Accepted c row rows buckets r h in
    let (es, v, bound) = fill_buckets_bounded c rows a.next (increment (edge_key a.edge) r) a.rest (
      omega (
        arith,
        a.bounded,
        largest-insert (edge_key a.edge) (count_of (edge_key a.edge) r + 1) r (omega arith),
      )) in
    (a.edge ∷ es, rw (a.validated, v), bound)

pub flatten_buckets_total :
    (fanout : ℕ) (buckets : List (List ℕ))
    → ((slot : ℕ) (b : List ℕ) → get_elem? buckets slot ≡ some b → length b ≤ fanout)
    → (flat : List ℕ) × (flatten_buckets fanout buckets ≡ ok flat)
unfolding flatten_buckets
flatten_buckets_total fanout [] h = ([], refl)
flatten_buckets_total fanout (b ∷ bs) h =
    let (flat, e) = flatten_buckets_total fanout bs (λ slot. h (suc slot)) in
    (b ++ (replicate (fanout - length b) 0 ++ flat), rw e (ground (arith, h 0 b refl)))
