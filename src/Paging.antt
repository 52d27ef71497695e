-- ===== src/Paging.antt =====
-- src/paging/paging.cpp, src/paging/page_map_indexer.cpp and src/paging/page_table_manager.cpp: page
-- table entries, the split of a virtual address, and the mapping of a page. The tables are a function
-- from a table's address and an entry's index to the entry's 64-bit value.
pub mod Entry
pub mod Indexer
pub mod Walk
use fox_os_kernel.Prelude.{
  ℕ, ◌+◌, ◌*◌, ◌/◌, ◌%◌, ◌^◌, ◌<◌, true, none, if◌then◌else◌, add64, update, for_range,
}
use fox_os_kernel.PageFrames.{Allocator, request_page}
use Entry.{get_flag, set_flag, get_address, set_address, present, read_write}
use Indexer.{PageMapIndexer, page_map_indexer}

pub record Paging : Type 0 where
  pub allocator : Allocator
  pub tables : ℕ → ℕ → ℕ

-- `table->entries[i] = e`
abbrev pub store_entry : Paging → ℕ → ℕ → ℕ → Paging
store_entry s table i e = record s { tables = update s.tables table (update (s.tables table) i e) }

-- `PDE.set_address(address >> 12)` and both flags
pub linked : ℕ → ℕ → ℕ
linked e address =
    set_flag (set_flag (set_address e (address / 2 ^ 12)) present true) read_write true

-- One level of `map_memory`: the table that the entry names, made first where there is none.
pub next_table : ℕ → ℕ → Paging → ℕ × Paging
unfolding linked
next_table table i s =
    let e = s.tables table i in
    let (page, allocator) = request_page s.allocator in
    let cleared = record s { allocator = allocator; tables = update s.tables page (λ _. 0) } in
    if get_flag e present
    then (get_address e * 2 ^ 12 % 2 ^ 64, s)
    else (page, store_entry cleared table i (linked e page))

pub map_memory : ℕ → ℕ → ℕ → Paging → Paging
unfolding next_table linked
map_memory pml4 virtual_memory physical_memory s =
    let indexer = page_map_indexer virtual_memory in
    let (pdp, s1) = next_table pml4 indexer.pdp_i s in
    let (pd, s2) = next_table pdp indexer.pd_i s1 in
    let (pt, s3) = next_table pd indexer.pt_i s2 in
    store_entry s3 pt indexer.p_i (linked (s3.tables pt indexer.p_i) physical_memory)

-- `for (int i = 0; i < range; i += 1000)`, the rounds counted by `range / 1000` rounded up
pub map_range : ℕ → ℕ → ℕ → ℕ → Paging → Paging
unfolding map_memory
map_range pml4 virtual_memory physical_memory range s =
    for_range ((range + 999) / 1000) 0
      (λ k s'.
        map_memory pml4 (add64 virtual_memory (k * 1000)) (add64 physical_memory (k * 1000)) s')
      s
