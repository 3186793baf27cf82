-- ===== src/Pages/Directory.antt =====
-- `RelationPageConfig`: the addresses of the directory, and its descriptors.
pub mod Laws
use fed_kg_rag_secure_impl.Prelude.{
  ℕ, ◌+◌, ◌-◌, ◌*◌, ◌/◌, ◌%◌, ◌<◌, ◌≤◌, ◌≡◌, String, Bool, true, false, Option, none, some, List,
  [], ◌∷◌, not, ltb, leb, ◌==◌, ◌&&◌, length, max, bit_and, bit_or, if◌then◌else◌,
}
use fed_kg_rag_secure_impl.Prelude.Bits.{◌<<<◌, ◌>>>◌, bit_length}
use fed_kg_rag_secure_impl.Python.{
  Result, ok, err, value_error, stop_iteration, ◌>>=◌, ◌>>◌, raise_if,
}
use fed_kg_rag_secure_impl.Config.{PublicConfig, entity_count, field_usable_bits, or_default}
use fed_kg_rag_secure_impl.TypeBlocks.{TypeBlockedLayout, total_rows, address}
use fed_kg_rag_secure_impl.Pages.{RelationPageParameters, page_base_bits, descriptor_bits, is_set}

pub record RelationPageConfig : Type 0 where
  pub base : PublicConfig
  pub pages : RelationPageParameters
  pub type_blocks : Option TypeBlockedLayout

unfoldable pub relation_count : RelationPageConfig → ℕ
relation_count c = length c.base.relations

unfoldable pub dense_directory_rows : RelationPageConfig → ℕ
dense_directory_rows c = entity_count c.base * relation_count c

unfoldable pub directory_rows : RelationPageConfig → Result ℕ
directory_rows c = elim c.type_blocks [ none ↦ ok (dense_directory_rows c) | some l ↦ total_rows l ]

unfoldable pub uses_hybrid_directory : RelationPageConfig → Bool
uses_hybrid_directory c = is_set c.type_blocks

-- `1 << max(0, (rows - 1).bit_length())`; no row gives `(-1).bit_length() = 1`.
abbrev power_of_two_rows : ℕ → ℕ
power_of_two_rows rows = if rows == 0 then 2 else 1 <<< bit_length (rows - 1)

unfoldable pub residual_directory_rows : RelationPageConfig → ℕ
residual_directory_rows c =
    let buckets = or_default c.pages.directory_buckets 0 in
    if c.pages.partition_residual_by_relation
    then power_of_two_rows (relation_count c * buckets)
    else buckets

unfoldable pub residual_tag_bits : RelationPageConfig → ℕ
residual_tag_bits c =
    if c.pages.partition_residual_by_relation
    then max 1 (bit_length (entity_count c.base))
    else max 1 (bit_length (dense_directory_rows c))

unfoldable pub owners_per_directory_element : RelationPageConfig → ℕ
owners_per_directory_element c = max 1 (field_usable_bits c.base / descriptor_bits c.pages)

unfoldable pub directory_columns : RelationPageConfig → ℕ
directory_columns c =
    (length c.base.owners + owners_per_directory_element c - 1) / owners_per_directory_element c

-- The column and the bit offset in it.
unfoldable pub directory_slot : RelationPageConfig → ℕ → ℕ × ℕ
directory_slot c owner_index = (
  owner_index / owners_per_directory_element c,
  (owner_index % owners_per_directory_element c) * descriptor_bits c.pages,
)

-- `next(name for name, v in ids.items() if v == id)`
unfoldable pub name_of : List (String × ℕ) → ℕ → Result String
name_of [] id = err stop_iteration
name_of ((name, v) ∷ ids) id = if v == id then ok name else name_of ids id

unfoldable pub dense_directory_index : RelationPageConfig → ℕ → ℕ → Result ℕ
dense_directory_index c source_slot relation_id = do
  raise_if (not (ltb source_slot (entity_count c.base))) value_error
  raise_if (not (leb 1 relation_id && leb relation_id (relation_count c))) value_error
  ok (source_slot * relation_count c + (relation_id - 1))

abbrev address_of : RelationPageConfig → TypeBlockedLayout → ℕ → ℕ → Result (Option ℕ)
address_of c l source_slot relation_id = do
  entity ← name_of c.base.entities source_slot
  relation ← name_of c.base.relations relation_id
  address l entity relation

unfoldable pub blocked_directory_index : RelationPageConfig → ℕ → ℕ → Result (Option ℕ)
blocked_directory_index c source_slot relation_id = elim c.type_blocks [
  | none ↦ (do i ← dense_directory_index c source_slot relation_id; ok (some i))
  | some l ↦ if source_slot == 0 then ok (some 0) else address_of c l source_slot relation_id
]

abbrev or_residual : Option ℕ → Result ℕ
or_residual none = err value_error
or_residual (some row) = ok row

unfoldable pub directory_index : RelationPageConfig → ℕ → ℕ → Result ℕ
directory_index c source_slot relation_id = do
  raise_if (not (ltb source_slot (entity_count c.base))) value_error
  raise_if (not (leb 1 relation_id && leb relation_id (relation_count c))) value_error
  elim c.type_blocks [
    | none ↦ ok (source_slot * relation_count c + (relation_id - 1))
    | some l ↦
        if source_slot == 0
        then ok 0
        else (do row ← address_of c l source_slot relation_id; or_residual row)
  ]

unfoldable pub pack_descriptor : RelationPageConfig → ℕ → ℕ → Result ℕ
pack_descriptor c page_base page_count = do
  raise_if (not (ltb page_base c.pages.page_budget)) value_error
  raise_if (not (leb page_count c.pages.pages_per_key)) value_error
  ok (bit_or page_base (page_count <<< page_base_bits c.pages))

unfoldable pub unpack_descriptor : RelationPageConfig → ℕ → ℕ × ℕ
unpack_descriptor c value =
    (bit_and value ((1 <<< page_base_bits c.pages) - 1), value >>> page_base_bits c.pages)
