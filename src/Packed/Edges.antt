-- ===== src/Packed/Edges.antt =====
-- The raw edges of an owner, as JSON rows, and the checks of `_validated_edge`.
use fed_kg_rag_secure_impl.Prelude.{
  ℕ, String, Bool, true, false, Option, none, some, List, [], ◌∷◌, map, ltb, not, ◌&&◌,
}
use fed_kg_rag_secure_impl.Python.{
  Json, null, other, bool, str, int, pos, negsuc, Result, ok, err, value_error, ◌>>=◌, ◌>>◌,
  raise_if, contains, lookup, string_key,
}
use fed_kg_rag_secure_impl.Sharing.{element}
use fed_kg_rag_secure_impl.Config.{PublicConfig}
use fed_kg_rag_secure_impl.Packed.{pack_edge}

-- An edge as a JSON object: its items.
abbrev pub Row : Type 0
Row = List (String × Json)

pub record Edge : Type 0 where
  pub source : ℕ
  pub relation : ℕ
  pub target : ℕ
  pub evidence : ℕ
  pub score : ℕ

abbrev edge_keys : List String
edge_keys = "source" ∷ "relation" ∷ "target" ∷ "evidence" ∷ "score" ∷ []

abbrev keys_among : List String → Row → Bool
keys_among names [] = true
keys_among names ((k, v) ∷ row) = contains k names && keys_among names row

abbrev present : Option Json → Bool
present none = false
present (some v) = true

abbrev holds_all : List String → Row → Bool
holds_all [] row = true
holds_all (k ∷ ks) row = present (lookup k row) && holds_all ks row

-- `set(edge) == {...}`
unfoldable pub has_exactly : List String → Row → Bool
has_exactly names row = keys_among names row && holds_all names row

abbrev found : Option ℕ → Result ℕ
found none = err value_error
found (some v) = ok v

-- `ids[name]`, where a missing name and a name that is no string end in `ValueError`.
unfoldable pub ontology_id : List (String × ℕ) → Option Json → Result ℕ
ontology_id ids (some (str name)) = found (lookup name ids)
ontology_id ids (some null) = err value_error
ontology_id ids (some other) = err value_error
ontology_id ids (some (bool b)) = err value_error
ontology_id ids (some (int z)) = err value_error
ontology_id ids none = err value_error

-- An integer, not a boolean, that is at least `lo`.
unfoldable pub integer_from : ℕ → Option Json → Result ℕ
integer_from lo (some (int (pos n))) = do raise_if (ltb n lo) value_error; ok n
integer_from lo (some (int (negsuc n))) = err value_error
integer_from lo (some (str name)) = err value_error
integer_from lo (some null) = err value_error
integer_from lo (some other) = err value_error
integer_from lo (some (bool b)) = err value_error
integer_from lo none = err value_error

-- The fields that are packed: `(target, relation, evidence, score, 1)`.
abbrev pub packed_fields : Edge → List ℕ
packed_fields e = e.target ∷ e.relation ∷ e.evidence ∷ e.score ∷ 1 ∷ []

unfoldable pub pack : PublicConfig → Edge → Result ℕ
pack c e = pack_edge c (map element (packed_fields e))

unfoldable pub parse_edge : PublicConfig → Row → Result Edge
parse_edge c row = do
  raise_if (not (has_exactly edge_keys row)) value_error
  source ← ontology_id c.entities (lookup "source" row)
  target ← ontology_id c.entities (lookup "target" row)
  relation ← ontology_id c.relations (lookup "relation" row)
  evidence ← integer_from 1 (lookup "evidence" row)
  score ← integer_from 0 (lookup "score" row)
  ok (record {
    source = source;
    relation = relation;
    target = target;
    evidence = evidence;
    score = score;
  })

-- The packed widths are enforced here too, and the packed number is dropped.
unfoldable pub validated_edge : PublicConfig → Row → Result Edge
validated_edge c row = do e ← parse_edge c row; packed ← pack c e; ok e
