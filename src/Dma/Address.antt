-- ===== src/Dma/Address.antt =====
-- Addresses of a pool: `bf_mem_virt2phy`, `bf_mem_virt2dma`, `bf_mem_dma2virt`,
-- `bf_sys_dma_buffer_index` and `bf_sys_dma_get_phy_addr_from_pool`.
pub mod PageMap
pub mod Pages
pub mod Disjoint
pub mod Index
use target_syslibs.Base.{
  ℕ, zero, suc, ◌+◌, ◌-◌, ◌*◌, ◌/◌, ◌%◌, ◌^◌, Bool, true, false, not, ◌&&◌, Option, none, some,
  List, [], ◌∷◌, if◌then◌else◌, ltb, leb, ◌==◌, bit_and, get_elem?,
}
use target_syslibs.Base.Outcome.{Outcome, done, faulted, assert, defined, ◌>>=◌, ◌>>◌}
use target_syslibs.Base.Words.{rounds, u32, u64, add64, sub64, mul64, sign_extend, int_lt, long_lt}
use target_syslibs.Dma.Align.{huge_page_size}
use target_syslibs.Dma.Pool.{HugePage, Pool, invalid_phy_addr, invalid_dma_addr}

-- /proc/self/pagemap and the page size, as the calls of the system give them. `entry` is the word
-- that `read` gives at an offset, or none where it fails.
pub record PageMapFile : Type 0 where
  pub page_size : ℕ
  pub opens : Bool
  pub seeks : ℕ → Bool
  pub entry : ℕ → Option ℕ

-- `page & 0x7fffffffffffff`
abbrev pfn_mask : ℕ
pfn_mask = 2 ^ 55 - 1

unfoldable pub bf_mem_virt2phy : PageMapFile → ℕ → ℕ
bf_mem_virt2phy f virtaddr =
    let virt_pfn = virtaddr / f.page_size in
    let offset = mul64 8 virt_pfn in
    if not f.opens
    then invalid_phy_addr
    else if not (f.seeks offset)
    then invalid_phy_addr
    else elim (f.entry offset) [
      | none ↦ invalid_phy_addr
      | some page ↦ add64 (mul64 (bit_and page pfn_mask) f.page_size) (virtaddr % f.page_size)
    ]

unfoldable pub bf_mem_virt2dma : PageMapFile → ℕ → ℕ
unfolding bf_mem_virt2phy
bf_mem_virt2dma f virtaddr =
    let dma_addr = bf_mem_virt2phy f virtaddr in
    if dma_addr == invalid_phy_addr then invalid_dma_addr else dma_addr

-- Whether the address lies in the huge page at `h`, and the virtual address that it has there.
abbrev pub contains_dma : HugePage → ℕ → Bool
contains_dma h dma_addr =
    leb h.base_dma_addr dma_addr && ltb dma_addr (add64 h.base_dma_addr huge_page_size)

abbrev pub virt_in_page : HugePage → ℕ → ℕ
virt_in_page h dma_addr = add64 h.base_virt_addr (sub64 dma_addr h.base_dma_addr)

-- The search over `huge_page_info`, with the rounds that are left. `none` is NULL.
pub find_page : ℕ → List HugePage → ℕ → Outcome (Option ℕ)
find_page zero hs dma_addr = done none
find_page (suc n) [] dma_addr = faulted
find_page (suc n) (h ∷ hs) dma_addr =
    let rest = find_page n hs dma_addr in
    if contains_dma h dma_addr then done (some (virt_in_page h dma_addr)) else rest

unfoldable pub bf_mem_dma2virt : Pool → ℕ → Outcome (Option ℕ)
unfolding find_page
bf_mem_dma2virt p dma_addr = find_page (rounds p.num_huge_pages) p.huge_page_info dma_addr

-- The subtraction of pointers is divided as a `size_t`. Division by zero is undefined.
unfoldable pub bf_sys_dma_buffer_index : Pool → ℕ → Outcome ℕ
bf_sys_dma_buffer_index p v_addr =
    let idx = sub64 v_addr p.pool_ptr / p.buf_size in
    if p.buf_size == 0
    then faulted
    else (do assert (ltb idx (2 ^ 63) && long_lt idx (sign_extend p.buf_cnt)); done (u32 idx))

unfoldable pub bf_sys_dma_get_phy_addr_from_pool : Pool → ℕ → Outcome ℕ
bf_sys_dma_get_phy_addr_from_pool p v_addr = do
  assert (not (p.pool_inited == 0))
  assert (not (v_addr == 0))
  let pool_base_vaddr = sub64 p.buf_start p.pool_hdr_offset
  let page_index = u32 (sub64 v_addr pool_base_vaddr / huge_page_size)
  assert (int_lt page_index p.num_huge_pages)
  h ← defined (get_elem? p.huge_page_info page_index)
  done (add64 h.base_dma_addr (sub64 v_addr h.base_virt_addr))
