-- ===== src/Packed/Vector/Lossless.antt =====
-- The packed adjacency vector holds every edge of the owner, bucket by bucket in input order, and
-- its length is public.
use mathlib.Core.List.{append_assoc}
use mathlib.Core.Option.{some-injective}
use fed_kg_rag_secure_impl.Prelude.{
  ℕ, zero, suc, ◌-◌, ◌*◌, ◌≤◌, ◌<◌, ◌≡◌, sym, ap, subst, ◌∙◌, String, some, List, [], ◌∷◌, ◌++◌,
  arith, length, replicate, take, drop, get_elem?, get_elem?-replicate, length-append,
  length-replicate, take-append_length, drop-append_add,
}
use fed_kg_rag_secure_impl.Python.{ok, string_key, pair_key, nat_key, map_result, ok-injective}
use fed_kg_rag_secure_impl.Config.{PublicConfig, entity_count}
use fed_kg_rag_secure_impl.Packed.Edges.{Row, Edge, validated_edge, pack}
use fed_kg_rag_secure_impl.Packed.Vector.{fill_buckets, flatten_buckets, packed_owner_vector}
use fed_kg_rag_secure_impl.Packed.Vector.Buckets.{from_source, fill_buckets-Filled}

-- The `slot`-th block of a flat vector of blocks of one width.
abbrev pub block : ℕ → ℕ → List ℕ → List ℕ
block width slot flat = take width (drop (slot * width) flat)

abbrev pub Blocks : ℕ → List (List ℕ) → List ℕ → Type 0
Blocks fanout buckets flat =
    (slot : ℕ) (b : List ℕ)
    → get_elem? buckets slot ≡ some b
    → (length b ≤ fanout) × (block fanout slot flat ≡ b ++ replicate (fanout - length b) 0)

pub record Flattened (fanout : ℕ) (buckets : List (List ℕ)) (flat : List ℕ) : Type 0 where
  pub same_length : length flat ≡ length buckets * fanout
  pub blocks : Blocks fanout buckets flat

record FirstBlock (fanout : ℕ) (b : List ℕ) (bs : List (List ℕ)) (flat : List ℕ) : Type 0 where
  rest : List ℕ
  room : length b ≤ fanout
  flattened : flatten_buckets fanout bs ≡ ok rest
  joined : flat ≡ b ++ (replicate (fanout - length b) 0 ++ rest)

flatten_buckets-FirstBlock :
    (fanout : ℕ) (b : List ℕ) (bs : List (List ℕ)) {flat : List ℕ}
    → flatten_buckets fanout (b ∷ bs) ≡ ok flat
    → FirstBlock fanout b bs flat
unfolding flatten_buckets
flatten_buckets-FirstBlock fanout b bs h = ground arith

length-padded : (b : List ℕ) (n : ℕ) → length b ≤ n → length (b ++ replicate (n - length b) 0) ≡ n
length-padded b n h = omega (
  arith,
  length-append {0} b (replicate (n - length b) 0),
  length-replicate {A = ℕ} (n - length b) 0,
)

-- In a vector of padded blocks the first block stands in front, and the others follow it.
module _ (n : ℕ) (first rest : List ℕ) (same : length first ≡ n) where
  block_first : block n 0 (first ++ rest) ≡ first
  block_first =
      ap (take n) (drop-append_add [] (first ++ rest) (0 * n) 0 (omega arith))
      ∙ take-append_length first rest n same

  block_next : (slot : ℕ) → block n (suc slot) (first ++ rest) ≡ block n slot rest
  block_next slot = ap (take n) (drop-append_add first rest (suc slot * n) (slot * n) (omega arith))

place_block :
    (fanout : ℕ) (b : List ℕ) (bs : List (List ℕ)) (rest : List ℕ)
    → length b ≤ fanout
    → length (b ++ replicate (fanout - length b) 0) ≡ fanout
    → Blocks fanout bs rest
    → Blocks fanout (b ∷ bs) ((b ++ replicate (fanout - length b) 0) ++ rest)
place_block fanout b bs rest room full ih zero b' g =
    subst
      (λ (x : List ℕ).
        (length x ≤ fanout)
        × (block fanout 0 ((b ++ replicate (fanout - length b) 0) ++ rest)
            ≡ x ++ replicate (fanout - length x) 0))
      (some-injective b b' g) (room, block_first fanout _ rest full)
place_block fanout b bs rest room full ih (suc slot) b' g =
    rw (block_next fanout _ rest full slot) (ih slot b' g)

pub flatten_buckets-Flattened :
    (fanout : ℕ) (buckets : List (List ℕ)) {flat : List ℕ}
    → flatten_buckets fanout buckets ≡ ok flat
    → Flattened fanout buckets flat
unfolding flatten_buckets
flatten_buckets-Flattened fanout [] h = record {
  same_length = ap length (sym (ok-injective h)) ∙ omega arith;
  blocks = λ slot b g. cc;
}
flatten_buckets-Flattened fanout (b ∷ bs) {flat} h =
    let f = flatten_buckets-FirstBlock fanout b bs h in
    let r = flatten_buckets-Flattened fanout bs f.flattened in
    let padded : List ℕ = b ++ replicate (fanout - length b) 0 in
    let joined : flat ≡ padded ++ f.rest =
      f.joined ∙ sym (append_assoc b (replicate (fanout - length b) 0) f.rest) in
    let full : length padded ≡ fanout = length-padded b fanout f.room in
    record {
      same_length =
          ap length joined ∙ omega (arith, full, length-append {0} padded f.rest, r.same_length);
      blocks =
          λ slot b' g. rw joined (place_block fanout b bs f.rest f.room full r.blocks slot b' g);
    }

pub record Built (c : PublicConfig) (rows : List Row) (flat : List ℕ) : Type 0 where
  pub buckets : List (List ℕ)
  pub filled : fill_buckets c rows (replicate (entity_count c) []) [] ≡ ok buckets
  pub flattened : flatten_buckets c.fanout_per_owner buckets ≡ ok flat

pub packed_owner_vector-Built :
    (c : PublicConfig) (owner : String) (rows : List Row) {flat : List ℕ}
    → packed_owner_vector c owner rows ≡ ok flat
    → Built c rows flat
unfolding packed_owner_vector
packed_owner_vector-Built c owner rows h = ground arith

-- What the vector holds: the validated edges, and in the block of each entity slot the packed edges
-- that leave it, in input order, and zeros behind them.
pub record IsLossless (c : PublicConfig) (rows : List Row) (flat : List ℕ) : Type 0 where
  pub edges : List Edge
  pub validated : map_result (validated_edge c) rows ≡ ok edges
  pub public_length : length flat ≡ entity_count c * c.fanout_per_owner
  pub blocks :
      (slot : ℕ)
      → slot < entity_count c
      → (ps : List ℕ) × (map_result (pack c) (from_source slot edges) ≡ ok ps)
        × (block c.fanout_per_owner slot flat ≡ ps ++ replicate (c.fanout_per_owner - length ps) 0)

-- A vector that `packed_owner_vector` returns has the public length `entity_count *
-- fanout_per_owner`, and the block of each entity slot holds the packed validated edges that leave
-- it, in input order, then zeros.
pub packed_owner_vector-IsLossless :
    (c : PublicConfig) (owner : String) (rows : List Row) {flat : List ℕ}
    → packed_owner_vector c owner rows ≡ ok flat
    → IsLossless c rows flat
packed_owner_vector-IsLossless c owner rows {flat} h =
    let t = packed_owner_vector-Built c owner rows h in
    let filled = fill_buckets-Filled c rows (replicate (entity_count c) []) [] t.filled in
    let flattened = flatten_buckets-Flattened c.fanout_per_owner t.buckets t.flattened in
    record {
      edges = filled.edges;
      validated = filled.validated;
      public_length =
          flattened.same_length
          ∙ ap (λ (n : ℕ). n * c.fanout_per_owner)
              (filled.same_length ∙ length-replicate {A = List ℕ} (entity_count c) []);
      blocks = λ slot k.
          let (ps, m, g) = filled.bucket slot [] (get_elem?-replicate (entity_count c) slot [] k) in
          (ps, m, (flattened.blocks slot ps g).1);
    }
