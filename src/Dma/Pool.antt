-- ===== src/Dma/Pool.antt =====
-- `bf_huge_page_info_t` and `bf_huge_pool_t` of bf_sys_dma_hugepages.c.
use target_syslibs.Base.{ℕ, ◌-◌, ◌^◌, List}

abbrev pub invalid_phy_addr : ℕ
invalid_phy_addr = 2 ^ 64 - 1

-- `BF_INVALID_DMA_ADDR`
abbrev pub invalid_dma_addr : ℕ
invalid_dma_addr = 2 ^ 64 - 1

pub record HugePage : Type 0 where
  pub base_dma_addr : ℕ
  pub base_virt_addr : ℕ

-- `self` is the address of the struct, which is the pool's handle. A pointer to an array is two
-- fields: the address of its block (`queue_block`, `info_block`) and what the array holds.
pub record Pool : Type 0 where
  pub self : ℕ
  pub pool_inited : ℕ
  pub pool_id : ℕ
  pub hdr_size : ℕ
  pub pool_ptr : ℕ
  pub buf_start : ℕ
  pub buf_cnt : ℕ
  pub buf_size : ℕ
  pub alignment : ℕ
  pub queue_block : ℕ
  pub pool_buf_ptr : List ℕ
  pub pool_buf_offset : ℕ
  pub base_phy_addr : ℕ
  pub pool_gate : ℕ
  pub name : List ℕ
  pub info_block : ℕ
  pub huge_page_info : List HugePage
  pub num_huge_pages : ℕ
  pub pool_hdr_offset : ℕ
  pub fd : ℕ
  pub dev_id : ℕ
  pub subdev_id : ℕ
