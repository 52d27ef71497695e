-- ===== src/Paging/Indexer.antt =====
-- src/paging/page_map_indexer.cpp
use fox_os_kernel.Prelude.{ℕ, ◌+◌, ◌*◌, ◌/◌, ◌^◌, ◌<◌, bit_and, ◌≡◌, arith, and_mask}

pub record PageMapIndexer : Type 0 where
  pub pdp_i : ℕ
  pub pd_i : ℕ
  pub pt_i : ℕ
  pub p_i : ℕ

unfoldable pub page_map_indexer : ℕ → PageMapIndexer
page_map_indexer virtual_address =
    let page = virtual_address / 2 ^ 12 in
    let pt = page / 2 ^ 9 in
    let pd = pt / 2 ^ 9 in
    let pdp = pd / 2 ^ 9 in
    record {
      p_i = bit_and page 0x1ff;
      pt_i = bit_and pt 0x1ff;
      pd_i = bit_and pd 0x1ff;
      pdp_i = bit_and pdp 0x1ff;
    }

-- A virtual address of 48 bits: its four indices are below 512 and are the digits of its page
-- number to the base 512.
pub page_map_indexer_lem :
    (v : ℕ)
    → v < 2 ^ 48
    → let r = page_map_indexer v in
      (((r.pdp_i * 2 ^ 9 + r.pd_i) * 2 ^ 9 + r.pt_i) * 2 ^ 9 + r.p_i ≡ v / 2 ^ 12)
      × (r.pdp_i < 2 ^ 9)
      × (r.pd_i < 2 ^ 9)
      × (r.pt_i < 2 ^ 9)
      × (r.p_i < 2 ^ 9)
unfolding page_map_indexer
page_map_indexer_lem v h = omega (
  arith,
  and_mask 9 (v / 2 ^ 12),
  and_mask 9 (v / 2 ^ 12 / 2 ^ 9),
  and_mask 9 (v / 2 ^ 12 / 2 ^ 9 / 2 ^ 9),
  and_mask 9 (v / 2 ^ 12 / 2 ^ 9 / 2 ^ 9 / 2 ^ 9),
)
