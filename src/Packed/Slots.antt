-- ===== src/Packed/Slots.antt =====
-- The identifiers that the checks of an edge let through lie in the configured ranges.
use fed_kg_rag_secure_impl.Prelude.{
  ℕ, ◌≤◌, ◌≡◌, String, Option, none, some, List, [], ◌∷◌, arith, length, All,
}
use fed_kg_rag_secure_impl.Python.{
  Json, str, null, other, bool, int, pos, negsuc, map_result-cons, ok, lookup, string_key,
  map_result,
}
use fed_kg_rag_secure_impl.Config.{PublicConfig, values}
use fed_kg_rag_secure_impl.Config.Sorted.{Within}
use fed_kg_rag_secure_impl.Config.Validate.{IsValid}
use fed_kg_rag_secure_impl.Packed.Edges.{
  Row, Edge, parse_edge, validated_edge, ontology_id, integer_from,
}

lookup-Within :
    (n : ℕ) (ids : List (String × ℕ)) (name : String) (v : ℕ)
    → Within n (values ids)
    → lookup name ids ≡ some v
    → (1 ≤ v) × (v ≤ n)
lookup-Within n [] name v w h = cc
lookup-Within n ((k, x) ∷ ids) name v w h = ground (arith, lookup-Within n ids name v w.1)

ontology_id-Within :
    (n : ℕ) (ids : List (String × ℕ)) (x : Option Json) (v : ℕ)
    → Within n (values ids)
    → ontology_id ids x ≡ ok v
    → (1 ≤ v) × (v ≤ n)
unfolding ontology_id
ontology_id-Within n ids (some (str name)) v w h = lookup-Within n ids name v w (ground arith)
ontology_id-Within n ids (some null) v w h = cc
ontology_id-Within n ids (some other) v w h = cc
ontology_id-Within n ids (some (bool b)) v w h = cc
ontology_id-Within n ids (some (int z)) v w h = cc
ontology_id-Within n ids none v w h = cc

-- The identifiers of an edge that passed the checks.
pub record HasSlots (c : PublicConfig) (e : Edge) : Type 0 where
  pub source : (1 ≤ e.source) × (e.source ≤ length c.entities)
  pub target : (1 ≤ e.target) × (e.target ≤ length c.entities)
  pub relation : (1 ≤ e.relation) × (e.relation ≤ length c.relations)
  pub evidence : 1 ≤ e.evidence

record Parsed (c : PublicConfig) (row : Row) (e : Edge) : Type 0 where
  source : ontology_id c.entities (lookup "source" row) ≡ ok e.source
  target : ontology_id c.entities (lookup "target" row) ≡ ok e.target
  relation : ontology_id c.relations (lookup "relation" row) ≡ ok e.relation
  evidence : integer_from 1 (lookup "evidence" row) ≡ ok e.evidence

parse_edge-Parsed :
    (c : PublicConfig) (row : Row) (e : Edge) → parse_edge c row ≡ ok e → Parsed c row e
unfolding parse_edge
parse_edge-Parsed c row e h = ground arith

integer_from-le : (lo : ℕ) (x : Option Json) (n : ℕ) → integer_from lo x ≡ ok n → lo ≤ n
unfolding integer_from
integer_from-le lo (some (int (pos m))) n h = ground arith
integer_from-le lo (some (int (negsuc m))) n h = cc
integer_from-le lo (some (str name)) n h = cc
integer_from-le lo (some null) n h = cc
integer_from-le lo (some other) n h = cc
integer_from-le lo (some (bool b)) n h = cc
integer_from-le lo none n h = cc

pub parse_edge-HasSlots :
    (c : PublicConfig) (row : Row) (e : Edge) → IsValid c → parse_edge c row ≡ ok e → HasSlots c e
parse_edge-HasSlots c row e v h =
    let p = parse_edge-Parsed c row e h in
    record {
      source = ontology_id-Within _ c.entities _ e.source v.slots.1 p.source;
      target = ontology_id-Within _ c.entities _ e.target v.slots.1 p.target;
      relation = ontology_id-Within _ c.relations _ e.relation v.ids.1 p.relation;
      evidence = integer_from-le 1 _ e.evidence p.evidence;
    }

validated_edge-parsed :
    (c : PublicConfig) (row : Row) (e : Edge)
    → validated_edge c row ≡ ok e
    → parse_edge c row ≡ ok e
unfolding validated_edge
validated_edge-parsed c row e h = ground arith

pub validated-HasSlots :
    (c : PublicConfig) (rows : List Row) (es : List Edge)
    → IsValid c
    → map_result (validated_edge c) rows ≡ ok es
    → All (HasSlots c) es
validated-HasSlots c rows [] v h = tt
validated-HasSlots c [] (e ∷ es) v h = absurd (ground arith)
validated-HasSlots c (row ∷ rows) (e ∷ es) v h =
    let (first, rest) = map_result-cons (validated_edge c) row rows e es h in
    (
      parse_edge-HasSlots c row e v (validated_edge-parsed c row e first),
      validated-HasSlots c rows es v rest,
    )
