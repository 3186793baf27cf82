-- ===== src/Pages/Directory/Laws.antt =====
-- The addresses of the dense directory, its descriptors and the bit ranges of the owners.
use native.Mathlib.Nat.{
  mod-lt, div-add-mod, pow-le-pow_right, mul-le-mul_right, le-div_iff_mul-le, div-mul-le_self,
}
use fed_kg_rag_secure_impl.Prelude.{
  ℕ, ◌+◌, ◌-◌, ◌*◌, ◌/◌, ◌%◌, ◌^◌, ◌<◌, ◌≤◌, ◌≡◌, sym, ap, ap₂, ◌∙◌, subst, arith, max, bit_or,
  length,
}
use fed_kg_rag_secure_impl.Prelude.Arith.{mod_unique, div_unique, digit-lt}
use fed_kg_rag_secure_impl.Prelude.Bits.{
  ◌<<<◌, bit_or-shift, bit_and-mask, bit_length, lt-bit_length,
}
use fed_kg_rag_secure_impl.Python.{ok}
use fed_kg_rag_secure_impl.Config.{entity_count, field_usable_bits}
use fed_kg_rag_secure_impl.Pages.{page_base_bits, descriptor_bits}
use fed_kg_rag_secure_impl.Pages.Directory.{
  RelationPageConfig, relation_count, dense_directory_rows, dense_directory_index,
  owners_per_directory_element, directory_slot, directory_columns, pack_descriptor,
  unpack_descriptor,
}

-- What a successful call has checked.
pub dense_directory_index_inversion :
    (c : RelationPageConfig) (source relation : ℕ) {i : ℕ}
    → dense_directory_index c source relation ≡ ok i
    → (source < entity_count c.base)
      × (1 ≤ relation)
      × (relation ≤ relation_count c)
      × (i ≡ source * relation_count c + (relation - 1))
unfolding dense_directory_index
dense_directory_index_inversion c source relation h = ground arith

pub dense_directory_index-lt :
    (c : RelationPageConfig) (source relation : ℕ) {i : ℕ}
    → dense_directory_index c source relation ≡ ok i
    → i < dense_directory_rows c
unfolding dense_directory_rows
dense_directory_index-lt c source relation h =
    let (inside, some_id, id_le, e) = dense_directory_index_inversion c source relation h in
    omega (
      arith,
      digit-lt source (relation - 1) (relation_count c) (entity_count c.base) inside (omega arith),
    )

-- Two calls of `dense_directory_index` that return the same row were given the same source slot
-- and the same relation identifier.
pub dense_directory_index-injective :
    (c : RelationPageConfig) (source relation source' relation' : ℕ) {i : ℕ}
    → dense_directory_index c source relation ≡ ok i
    → dense_directory_index c source' relation' ≡ ok i
    → (source ≡ source') × (relation ≡ relation')
dense_directory_index-injective c source relation source' relation' h h' =
    let (_, a, b, e) = dense_directory_index_inversion c source relation h in
    let (_, a', b', e') = dense_directory_index_inversion c source' relation' h' in
    let n = relation_count c in
    let same = sym e ∙ e' in
    (
      sym (div_unique source (relation - 1) n (omega arith))
          ∙ ap (λ (t : ℕ). t / n) same
          ∙ div_unique source' (relation' - 1) n (omega arith),
      omega (
        arith,
        sym (mod_unique source (relation - 1) n (omega arith))
            ∙ ap (λ (t : ℕ). t % n) same
            ∙ mod_unique source' (relation' - 1) n (omega arith),
      ),
    )

base-lt :
    (c : RelationPageConfig) (b : ℕ) → b < c.pages.page_budget → b < 2 ^ page_base_bits c.pages
unfolding page_base_bits
base-lt c b h =
    let grows : 2 ^ bit_length (c.pages.page_budget - 1)
        ≤ 2 ^ max 1 (bit_length (c.pages.page_budget - 1)) =
      pow-le-pow_right (omega arith) (omega arith) in
    omega (arith, lt-bit_length (c.pages.page_budget - 1), grows)

-- The number that `pack_descriptor` returns, and what it has checked.
pub pack_descriptor_inversion :
    (c : RelationPageConfig) (page_base page_count : ℕ) {d : ℕ}
    → pack_descriptor c page_base page_count ≡ ok d
    → (page_base < c.pages.page_budget)
      × (page_count ≤ c.pages.pages_per_key)
      × (d ≡ page_count * 2 ^ page_base_bits c.pages + page_base)
unfolding pack_descriptor
pack_descriptor_inversion c page_base page_count {d} h =
    let small : page_base < c.pages.page_budget = ground arith in
    let packed : d ≡ bit_or page_base (page_count <<< page_base_bits c.pages) = ground arith in
    (
      small,
      ground arith,
      packed
          ∙ bit_or-shift (page_base_bits c.pages) page_base page_count (base-lt c page_base small)
          ∙ omega arith,
    )

-- A descriptor that `pack_descriptor` returns is unpacked to the page base and the page count it
-- was made from.
pub unpack_descriptor-pack_descriptor :
    (c : RelationPageConfig) (page_base page_count : ℕ) {d : ℕ}
    → pack_descriptor c page_base page_count ≡ ok d
    → unpack_descriptor c d ≡ (page_base, page_count)
unfolding unpack_descriptor
unpack_descriptor-pack_descriptor c page_base page_count {d} h =
    let (small, _, e) = pack_descriptor_inversion c page_base page_count h in
    let k = page_base_bits c.pages in
    let inside = base-lt c page_base small in
    ap₂ (λ (x y : ℕ). (x, y))
      (bit_and-mask k d
        ∙ ap (λ (t : ℕ). t % 2 ^ k) e
        ∙ mod_unique page_count page_base (2 ^ k) inside)
      (ap (λ (t : ℕ). t / 2 ^ k) e ∙ div_unique page_count page_base (2 ^ k) inside)

-- When an earlier and a later owner share a column of the directory, the bit range of the earlier
-- ends where that of the later starts, or before.
pub directory_slot_disjoint :
    (c : RelationPageConfig) (i j : ℕ)
    → i < j
    → (directory_slot c i).0 ≡ (directory_slot c j).0
    → (directory_slot c i).1 + descriptor_bits c.pages ≤ (directory_slot c j).1
unfolding directory_slot owners_per_directory_element
directory_slot_disjoint c i j h same =
    let k = max 1 (field_usable_bits c.base / descriptor_bits c.pages) in
    let behind : i % k < j % k =
      omega (arith, div-add-mod i k, div-add-mod j k, ap (λ (t : ℕ). k * t) same) in
    omega (arith, mul-le-mul_right (descriptor_bits c.pages) behind)

some_bit : (c : RelationPageConfig) → 1 ≤ descriptor_bits c.pages
unfolding descriptor_bits page_base_bits
some_bit c = omega arith

-- A quotient that is not zero is the number of owners in an element.
owners_per_element_eq :
    (c : RelationPageConfig)
    → descriptor_bits c.pages ≤ field_usable_bits c.base
    → owners_per_directory_element c ≡ field_usable_bits c.base / descriptor_bits c.pages
unfolding owners_per_directory_element
owners_per_element_eq c room =
    let one : 1 ≤ field_usable_bits c.base / descriptor_bits c.pages =
      (le-div_iff_mul-le (some_bit c)).1 (omega (arith, room)) in
    omega (arith, one)

some_owner : (c : RelationPageConfig) → 1 ≤ owners_per_directory_element c
unfolding owners_per_directory_element
some_owner c = omega arith

-- When a descriptor fits the usable bits of the field, every configured owner has a column of the
-- directory, and its bit range ends within the usable bits.
pub directory_slot_fits :
    (c : RelationPageConfig) (i : ℕ)
    → i < length c.base.owners
    → descriptor_bits c.pages ≤ field_usable_bits c.base
    → ((directory_slot c i).0 < directory_columns c)
      × ((directory_slot c i).1 + descriptor_bits c.pages ≤ field_usable_bits c.base)
unfolding directory_slot directory_columns
directory_slot_fits c i h room =
    let per = owners_per_directory_element c in
    let bits = descriptor_bits c.pages in
    let inside : i % per < per = mod-lt i (some_owner c) in
    let usable = field_usable_bits c.base in
    let whole : per * bits ≤ usable =
      subst (λ (t : ℕ). t * bits ≤ usable) (sym (owners_per_element_eq c room))
        (div-mul-le_self usable bits) in
    let next : i / per + 1 ≤ (length c.base.owners + per - 1) / per =
      (le-div_iff_mul-le (some_owner c)).1
        (omega (arith, div-mul-le_self i per, h, some_owner c)) in
    (omega (arith, next), omega (arith, mul-le-mul_right bits inside, whole))
