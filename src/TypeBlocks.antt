-- ===== src/TypeBlocks.antt =====
-- doram_t2_3pc/type_blocked_directory.py: a directory with one block of rows for each relation,
-- as wide as the class of entities the relation starts from. A row number is never negative when
-- it is used, so it is a natural number; a coefficient of the public table keeps its sign.
pub mod Rows
pub mod Height
pub mod Vector
use fed_kg_rag_secure_impl.Prelude.{
  ℕ, ◌+◌, ◌-◌, ◌*◌, String, Bool, true, false, Option, none, some, List, [], ◌∷◌, ◌++◌, map, not,
  ltb, leb, ◌&&◌, ◌||◌, str_eq, length, replicate, if◌then◌else◌,
}
use fed_kg_rag_secure_impl.Python.{
  ℤ, difference, Result, ok, err, value_error, ◌>>=◌, ◌>>◌, raise_if, map_result, contains, lookup,
  insert, string_key,
}
use fed_kg_rag_secure_impl.Python.Sequence.{
  item, get_item, set_item, keys_of, sort_by, max_default, same_names, any_of,
}
use fed_kg_rag_secure_impl.Config.{values, sorted, range_from, same_list, any_empty}

abbrev dummy_type : String
dummy_type = "\0dummy"

pub record TypeBlockedLayout : Type 0 where
  pub entity_order : List String
  pub entity_index : List (String × ℕ)
  pub type_start : List (String × ℕ)
  pub type_size : List (String × ℕ)
  pub relation_order : List String
  pub block_start : List (String × ℕ)
  pub relation_domain : List (String × String)

abbrev block_end : TypeBlockedLayout → String → Result ℕ
block_end l relation = do
  start ← item relation l.block_start
  domain ← item relation l.relation_domain
  size ← item domain l.type_size
  ok (start + size)

unfoldable pub total_rows : TypeBlockedLayout → Result ℕ
total_rows l = do ends ← map_result (block_end l) l.relation_order; ok (max_default 1 ends)

abbrev block_width : TypeBlockedLayout → String → Result ℕ
block_width l relation = do domain ← item relation l.relation_domain; item domain l.type_size

unfoldable pub max_block : TypeBlockedLayout → Result ℕ
max_block l = do widths ← map_result (block_width l) l.relation_order; ok (max_default 1 widths)

-- `(block_start, type_start, width)`
pub record Block : Type 0 where
  pub start : ℕ
  pub first : ℕ
  pub width : ℕ

unfoldable pub block_of : TypeBlockedLayout → String → Result Block
block_of l relation = do
  domain ← item relation l.relation_domain
  start ← item relation l.block_start
  first ← item domain l.type_start
  width ← item domain l.type_size
  ok (record { start = start; first = first; width = width })

unfoldable pub coefficient : TypeBlockedLayout → String → Result ℤ
unfolding block_of
coefficient l relation = do b ← block_of l relation; ok (difference b.start b.first)

-- The row of an entity in a block: `coefficient + index`, if the class holds the entity.
abbrev pub row_in : Block → ℕ → Option ℕ
row_in b index =
    if leb b.first index && ltb index (b.first + b.width)
    then some (b.start + index - b.first)
    else none

unfoldable pub address : TypeBlockedLayout → String → String → Result (Option ℕ)
unfolding block_of
address l entity relation = elim (lookup entity l.entity_index) [
  | none ↦ ok none
  | some index ↦
      if contains relation (keys_of l.relation_domain)
      then (do b ← block_of l relation; ok (row_in b index))
      else ok none
]

abbrev table_row : TypeBlockedLayout → String → Result (ℤ × ℕ × ℕ)
table_row l relation = do b ← block_of l relation; ok (difference b.start b.first, b.first, b.width)

unfoldable pub coefficient_table : TypeBlockedLayout → Result (List (ℤ × ℕ × ℕ))
unfolding block_of
coefficient_table l = map_result (table_row l) l.relation_order

-- `by_type.setdefault(entity_type, []).append(id)`
abbrev add_to_class : String → ℕ → List (String × List ℕ) → List (String × List ℕ)
add_to_class kind id classes =
    insert kind (elim (lookup kind classes) [ none ↦ id ∷ [] | some ids ↦ ids ++ id ∷ [] ]) classes

unfoldable pub group_by_type :
    List (String × ℕ)
    → List (String × String)
    → List (String × List ℕ)
    → Result (List (String × List ℕ))
group_by_type ids [] classes = ok classes
group_by_type ids ((entity, kind) ∷ types) classes = do
  id ← item entity ids
  group_by_type ids types (add_to_class kind id classes)

-- The loop that checks that each class is contiguous and notes its start and its size.
unfoldable pub place_types :
    List (String × List ℕ)
    → List (String × ℕ)
    → List (String × ℕ)
    → Result (List (String × ℕ) × List (String × ℕ))
unfolding sorted
place_types [] starts sizes = ok (starts, sizes)
place_types ((kind, slots) ∷ classes) starts sizes = do
  let ordered = sorted slots
  first ← get_item ordered 0
  raise_if (not (same_list ordered (range_from first (length ordered)))) value_error
  place_types classes (insert kind first starts) (insert kind (length ordered) sizes)

-- The loop over the relations, with its cursor.
unfoldable pub place_blocks :
    List (String × String)
    → List (String × ℕ)
    → List String
    → ℕ
    → List (String × ℕ)
    → Result (List (String × ℕ))
place_blocks domains sizes [] cursor starts = ok starts
place_blocks domains sizes (relation ∷ relations) cursor starts = do
  domain ← item relation domains
  size ← item domain sizes
  place_blocks domains sizes relations (cursor + size) (insert relation cursor starts)

abbrev by_id : String × ℕ → String × ℕ → Bool
by_id a b = leb a.1 b.1

-- The names in the order of their identifiers.
unfoldable pub names_in_order : List (String × ℕ) → List String
unfolding sort_by
names_in_order ids = map (λ (e : String × ℕ). e.0) (sort_by by_id ids)

abbrev second_of : List (String × String) → List String
second_of d = map (λ (e : String × String). e.1) d

unfoldable pub build_layout_from_public_ids :
    List (String × ℕ)
    → List (String × ℕ)
    → List (String × String)
    → List (String × String)
    → Result TypeBlockedLayout
unfolding names_in_order group_by_type place_types place_blocks
build_layout_from_public_ids entity_ids relation_ids entity_types relation_domains = do
  raise_if (not (same_names (keys_of entity_types) (keys_of entity_ids))) value_error
  raise_if (not (same_names (keys_of relation_domains) (keys_of relation_ids))) value_error
  raise_if (any_empty (second_of entity_types)) value_error
  raise_if (any_empty (second_of relation_domains)) value_error
  classes ← group_by_type entity_ids entity_types []
  (starts, sizes) ← place_types classes ((dummy_type, 0) ∷ []) ((dummy_type, 1) ∷ [])
  raise_if (any_of (λ domain. not (contains domain (keys_of classes))) (second_of relation_domains))
      value_error
  let relations = names_in_order relation_ids
  blocks ← place_blocks relation_domains sizes relations 1 []
  ok (record {
    entity_order = names_in_order entity_ids;
    entity_index = entity_ids;
    type_start = starts;
    type_size = sizes;
    relation_order = relations;
    block_start = blocks;
    relation_domain = relation_domains;
  })

unfoldable pub write_descriptors :
    TypeBlockedLayout → List ((String × String) × ℕ) → List ℕ → Result (List ℕ)
unfolding address
write_descriptors l [] vector = ok vector
write_descriptors l (((entity, relation), descriptor) ∷ keyed) vector = do
  row ← address l entity relation
  next ← elim row [ none ↦ err value_error | some i ↦ set_item vector i descriptor ]
  write_descriptors l keyed next

unfoldable pub build_owner_vector :
    TypeBlockedLayout → List ((String × String) × ℕ) → Result (List ℕ)
unfolding total_rows write_descriptors
build_owner_vector l keyed = do rows ← total_rows l; write_descriptors l keyed (replicate rows 0)

unfoldable pub lookup_cleartext :
    List (List ℕ) → TypeBlockedLayout → String → String → Result (List ℕ)
unfolding address
lookup_cleartext vectors l entity relation = do
  row ← address l entity relation
  elim row [
    | none ↦ ok (replicate (length vectors) 0)
    | some i ↦ map_result (λ vector. get_item vector i) vectors
  ]

unfoldable pub cost_model : TypeBlockedLayout → ℕ → Bool → Result ℕ
unfolding total_rows max_block
cost_model l frontier_addresses folded = do
  rows ← total_rows l
  widest ← max_block l
  ok (
      if folded
      then rows + (rows + frontier_addresses * widest)
      else (1 + frontier_addresses) * rows)
