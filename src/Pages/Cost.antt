-- ===== src/Pages/Cost.antt =====
-- `paged_cost_estimate`: the number of selected products of a batch of queries. The ratio, a float,
-- is left out.
use fed_kg_rag_secure_impl.Prelude.{
  ℕ, ◌+◌, ◌*◌, Option, none, some, not, ltb, leb, ◌&&◌, length, if◌then◌else◌,
}
use fed_kg_rag_secure_impl.Python.{Result, ok, err, value_error, type_error, ◌>>=◌, ◌>>◌, raise_if}
use fed_kg_rag_secure_impl.Config.{entity_count, block_edges, frontier_edges}
use fed_kg_rag_secure_impl.Pages.{slots_per_key, frontier_slots}
use fed_kg_rag_secure_impl.Pages.Directory.{
  RelationPageConfig, directory_rows, directory_columns, uses_hybrid_directory,
  residual_directory_rows, residual_tag_bits,
}

pub record CostEstimate : Type 0 where
  pub directory_rows : ℕ
  pub declared_dependent_reads : ℕ
  pub dependent_reads : ℕ
  pub candidate_count : ℕ
  pub type_block_products : Option ℕ
  pub residual_products : Option ℕ
  pub directory_products : ℕ
  pub page_products : ℕ
  pub first_hop_products : ℕ
  pub second_hop_products : ℕ
  pub total_lookup_products : ℕ
  pub packed_scan_first_hop_products : ℕ
  pub packed_scan_second_hop_products : ℕ
  pub packed_scan_total_lookup_products : ℕ

-- `owner_count * bucket_slots` and the products of the residual table.
abbrev residual_products_of : RelationPageConfig → Option ℕ → Result ℕ
residual_products_of c none = err type_error
residual_products_of c (some slots) = ok (
    residual_directory_rows c * (length c.base.owners * slots)
    + length c.base.owners * slots * residual_tag_bits c)

-- The dependent reads that a caller asks for, or the declared ones.
abbrev reads_of : ℕ → ℕ → Option ℕ → Result ℕ
reads_of declared second_width none = ok declared
reads_of declared second_width (some n) = do
  raise_if (not (leb 1 n && leb n second_width)) value_error
  ok n

-- The products of one read of the directory: in all, in the type blocks, in the residual table.
unfoldable pub directory_cost : RelationPageConfig → Result (ℕ × Option ℕ × Option ℕ)
directory_cost c =
    if uses_hybrid_directory c
    then (do
      rows ← directory_rows c
      residual ← residual_products_of c c.pages.bucket_slots
      ok (rows * directory_columns c + residual, some (rows * directory_columns c), some residual))
    else (do rows ← directory_rows c; ok (rows * directory_columns c, none, none))

unfoldable pub paged_cost_estimate : RelationPageConfig → ℕ → Option ℕ → Result CostEstimate
unfolding directory_cost
paged_cost_estimate c query_count compacted_frontier_slots = do
  raise_if (ltb query_count 1) value_error
  let owner_count = length c.base.owners
  (products, blocked, residual) ← directory_cost c
  let page_products = owner_count * c.pages.pages_per_key * c.pages.page_budget * c.pages.page_size
  let per_address = products + page_products
  let second_width = owner_count * slots_per_key c.pages
  let declared = frontier_slots c.pages owner_count
  reads ← reads_of declared second_width compacted_frontier_slots
  let first_hop = query_count * per_address
  let second_hop = query_count * reads * per_address
  let scan_first = entity_count c.base * query_count * block_edges c.base
  let scan_second = entity_count c.base * query_count * frontier_edges c.base * block_edges c.base
  rows ← directory_rows c
  ok (record {
    directory_rows = rows;
    declared_dependent_reads = declared;
    dependent_reads = reads;
    candidate_count = reads * second_width;
    type_block_products = blocked;
    residual_products = residual;
    directory_products = products;
    page_products = page_products;
    first_hop_products = first_hop;
    second_hop_products = second_hop;
    total_lookup_products = first_hop + second_hop;
    packed_scan_first_hop_products = scan_first;
    packed_scan_second_hop_products = scan_second;
    packed_scan_total_lookup_products = scan_first + scan_second;
  })
