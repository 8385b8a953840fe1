-- ===== src/Dma/Create.antt =====
-- `bf_sys_dma_pool_create` and `bf_sys_dma_pool_destroy`, with `alloc_huge_pages`,
-- `free_huge_pages` and `log_virt_dma_addr`. `none` is the result -1.
pub mod Bus
pub mod Steps
pub mod Post
pub mod Filled
pub mod Success
pub mod Whole
pub mod Checks
pub mod Identity
pub mod Runs
pub mod Total
use target_syslibs.Base.{
  ℕ, zero, suc, ◌+◌, ◌-◌, ◌*◌, ◌/◌, ◌%◌, ◌^◌, Bool, true, false, not, Option, none, some, List, [],
  ◌∷◌, if◌then◌else◌, ltb, leb, ◌==◌, bit_and,
}
use target_syslibs.Base.Outcome.{Outcome, done, aborted, faulted}
use target_syslibs.Base.Words.{u32, u64, add64, sub64, mul64, sign_extend, rounds}
use target_syslibs.Dma.Align.{
  huge_page_size, pool_hdr_size, conv_to_next_aligned, align_to_bf_page_size,
}
use target_syslibs.Dma.Pool.{HugePage, Pool, invalid_phy_addr}
use target_syslibs.Dma.Address.{bf_mem_virt2phy, bf_mem_virt2dma}
use target_syslibs.Dma.Machine.{
  on_bus, Machine, System, M, pure, ◌>>=◌, ◌>>◌, check, bf_sys_calloc, bf_sys_free, mmap, munmap,
  load, store, remove,
}

module _ (s : System) where
  -- The second call of `mmap` asks for the default size of huge pages.
  unfoldable map_pages : ℕ → M (Option ℕ)
  unfolding mmap
  map_pages len = do
    first ← mmap s true len
    elim first [ some b ↦ pure (some b) | none ↦ mmap s false len ]

  unfoldable pub alloc_huge_pages : ℕ → ℕ → M (Option ℕ)
  unfolding map_pages store align_to_bf_page_size
  alloc_huge_pages size header_offset = do
    let actual_size = align_to_bf_page_size (add64 size header_offset)
    mapped ← map_pages actual_size
    elim mapped [
      | none ↦ pure none
      | some ptr ↦ do store ptr actual_size; pure (some (add64 ptr header_offset))
    ]

  -- The bus address of a page: what the registered function makes of the physical address. Its
  -- error stops the process by `assert (0)`.
  unfoldable pub map_on_bus : ℕ → ℕ → ℕ → M ℕ
  map_on_bus dev_id subdev_id phys m = elim s.map_fn [
    | none ↦ done (phys, m)
    | some map_fn ↦ elim (map_fn dev_id subdev_id phys) [
      | none ↦ aborted
      | some dma ↦ done (dma, record m { bus = on_bus dev_id subdev_id dma ∷ m.bus })
    ]
  ]

  -- The loop of `log_virt_dma_addr`, with the rounds that are left.
  pub log_pages : ℕ → ℕ → ℕ → ℕ → M (List HugePage)
  unfolding map_on_bus bf_mem_virt2dma
  log_pages dev_id subdev_id zero huge_ptr = pure []
  log_pages dev_id subdev_id (suc n) huge_ptr = do
    dma ← map_on_bus dev_id subdev_id (bf_mem_virt2dma s.pagemap huge_ptr)
    rest ← log_pages dev_id subdev_id n (add64 huge_ptr huge_page_size)
    pure (record { base_dma_addr = dma; base_virt_addr = huge_ptr } ∷ rest)

  -- The array's block and its contents.
  unfoldable pub log_virt_dma_addr : ℕ → ℕ → ℕ → ℕ → M (Option (ℕ × List HugePage))
  unfolding bf_sys_calloc log_pages
  log_virt_dma_addr dev_id subdev_id ptr cnt = do
    block ← bf_sys_calloc s (sign_extend cnt) 16
    elim block [
      | none ↦ pure none
      | some a ↦ do pages ← log_pages dev_id subdev_id (rounds cnt) ptr; pure (some (a, pages))
    ]

-- The LIFO is filled with the buffers' addresses.
pub buf_addrs : ℕ → ℕ → ℕ → List ℕ
buf_addrs zero buf_ptr size = []
buf_addrs (suc n) buf_ptr size = buf_ptr ∷ buf_addrs n (add64 buf_ptr size) size

-- The bytes that `strncpy` and the final 0 leave of a name: at most 63.
pub copy_name : ℕ → List ℕ → List ℕ
copy_name zero cs = []
copy_name (suc n) [] = []
copy_name (suc n) (c ∷ cs) = if c == 0 then [] else c ∷ copy_name n cs

-- The error paths: the pointers are freed in order, and the result is -1.
unfoldable pub give_up : List ℕ → M (Option Pool)
unfolding bf_sys_free
give_up [] = pure none
give_up (a ∷ rest) = bf_sys_free a >> give_up rest

-- The offset of the buffers from the mapping.
unfoldable pub header_for : ℕ → ℕ → ℕ
unfolding conv_to_next_aligned
header_for size cnt =
    if ltb huge_page_size (add64 (mul64 size (sign_extend cnt)) pool_hdr_size)
    then conv_to_next_aligned (u32 size) pool_hdr_size
    else pool_hdr_size

-- The arguments of `bf_sys_dma_pool_create`. `cnt` is the pattern of an `int`.
pub record Args : Type 0 where
  pub pool_name : List ℕ
  pub hndl : ℕ
  pub dev_id : ℕ
  pub subdev_id : ℕ
  pub size : ℕ
  pub cnt : ℕ
  pub align : ℕ

-- The struct as the end of the function leaves it; `size` is the aligned size.
abbrev pub filled :
    Args
    → (size self queue_block vhuge header_offset info_block : ℕ) → List HugePage
    → (num base_phy : ℕ) → Pool
filled a size self queue_block vhuge header_offset info_block pages num base_phy = record {
  self = self;
  pool_inited = 1;
  pool_id = 0;
  hdr_size = pool_hdr_size;
  pool_ptr = vhuge;
  buf_start = vhuge;
  buf_cnt = a.cnt;
  buf_size = size;
  alignment = a.align;
  queue_block = queue_block;
  pool_buf_ptr = buf_addrs (rounds a.cnt) vhuge size;
  pool_buf_offset = 0;
  base_phy_addr = base_phy;
  pool_gate = 0;
  name = copy_name 63 a.pool_name;
  info_block = info_block;
  huge_page_info = pages;
  num_huge_pages = num;
  pool_hdr_offset = header_offset;
  fd = 0;
  dev_id = a.dev_id;
  subdev_id = a.subdev_id;
}

module _ (s : System) (a : Args) where
  -- From `bf_mem_virt2phy` on, with everything allocated.
  unfoldable pub fill_pool :
      (size self queue_block vhuge header_offset info_block : ℕ)
      → List HugePage
      → ℕ
      → M (Option Pool)
  unfolding buf_addrs copy_name give_up bf_mem_virt2phy
  fill_pool size self queue_block vhuge header_offset info_block pages num =
      let base_phy = bf_mem_virt2phy s.pagemap vhuge in
      if base_phy == invalid_phy_addr
      then give_up (self ∷ queue_block ∷ vhuge ∷ info_block ∷ [])
      else pure
          (some (filled a size self queue_block vhuge header_offset info_block pages num base_phy))

  -- From the table of pages on: the length of the mapping is read back from its first word.
  unfoldable pub log_pool :
      (size self queue_block vhuge header_offset alloced_size : ℕ) → M (Option Pool)
  unfolding log_virt_dma_addr fill_pool give_up
  log_pool size self queue_block vhuge header_offset alloced_size = do
    let num = u32 (alloced_size / huge_page_size)
    logged ← log_virt_dma_addr s a.dev_id a.subdev_id (sub64 vhuge header_offset) num
    elim logged [
      | none ↦ give_up (self ∷ queue_block ∷ vhuge ∷ [])
      | some (info_block, pages) ↦
          fill_pool size self queue_block vhuge header_offset info_block pages num
    ]

  -- From `alloc_huge_pages` on, with the struct and the queue allocated.
  unfoldable pub map_pool : (size self queue_block : ℕ) → M (Option Pool)
  unfolding header_for alloc_huge_pages load log_pool give_up
  map_pool size self queue_block = do
    let header_offset = header_for size a.cnt
    mapped ← alloc_huge_pages s (mul64 size (sign_extend a.cnt)) header_offset
    elim mapped [
      | none ↦ give_up (self ∷ queue_block ∷ [])
      | some vhuge ↦ do
        alloced_size ← load (sub64 vhuge header_offset)
        log_pool size self queue_block vhuge header_offset alloced_size
    ]

  -- The two blocks of the heap.
  unfoldable pub reserve_pool : (size : ℕ) → M (Option Pool)
  unfolding bf_sys_calloc give_up map_pool
  reserve_pool size = do
    first ← bf_sys_calloc s 1 s.pool_bytes
    elim first [
      | none ↦ pure none
      | some self ↦ do
        second ← bf_sys_calloc s (sign_extend a.cnt) 8
        elim second [
          | none ↦ give_up (self ∷ [])
          | some queue_block ↦ map_pool size self queue_block
        ]
    ]

  -- The whole function: the checks of the arguments, then the allocations.
  unfoldable pub bf_sys_dma_pool_create : M (Option Pool)
  unfolding conv_to_next_aligned reserve_pool
  bf_sys_dma_pool_create =
      check (not (a.hndl == 0))
      >> (if not (bit_and a.align (u32 (a.align + 2 ^ 32 - 1)) == 0)
          then pure none
          else if ltb huge_page_size a.size
          then pure none
          else check (leb a.align pool_hdr_size)
            >> reserve_pool (conv_to_next_aligned (u32 a.size) a.align))
