-- ===== src/Dma/Address/Pages.antt =====
-- The table of huge pages translates an address of the pool to the bus and back.
use target_syslibs.Base.{
  ℕ, zero, suc, ◌+◌, ◌*◌, ◌/◌, ◌%◌, ◌^◌, ◌≤◌, ◌<◌, ◌≡◌, ◌≢◌, ◌⊎◌, refl, sym, ap, true, false, some,
  List, [], ◌∷◌, length, ◌∙◌, ne→not-==, lt→ltb, get_elem?, arith,
}
use target_syslibs.Base.Outcome.{done, done_injective}
use target_syslibs.Base.Words.{rounds, add64, sub64, u32}
use target_syslibs.Dma.Align.{huge_page_size}
use target_syslibs.Dma.Pool.{HugePage, Pool}
use target_syslibs.Dma.Address.{
  find_page, contains_dma, virt_in_page, bf_mem_dma2virt, bf_sys_dma_get_phy_addr_from_pool,
}

-- The bus addresses of two huge pages do not overlap.
abbrev pub Apart : HugePage → HugePage → Type 0
Apart g h =
    (g.base_dma_addr + huge_page_size ≤ h.base_dma_addr)
    ⊎ (h.base_dma_addr + huge_page_size ≤ g.base_dma_addr)

abbrev pub AllApart : List HugePage → Type 0
AllApart hs =
    (j k : ℕ) (g h : HugePage)
    → get_elem? hs j ≡ some g
    → get_elem? hs k ≡ some h
    → j ≢ k
    → Apart g h

-- What pool creation leaves: the table has a page for each part of the mapping from `base` on.
pub record IsTabled (p : Pool) (base : ℕ) : Type 0 where
  pub inited : p.pool_inited ≢ 0
  pub starts : sub64 p.buf_start p.pool_hdr_offset ≡ base
  pub positive : 0 < base
  pub in_memory : base + p.num_huge_pages * huge_page_size < 2 ^ 64
  pub table : length p.huge_page_info ≡ p.num_huge_pages
  pub few : p.num_huge_pages < 2 ^ 31
  pub consecutive :
      (k : ℕ) (h : HugePage)
      → get_elem? p.huge_page_info k ≡ some h
      → h.base_virt_addr ≡ base + k * huge_page_size

-- The pages have bus addresses, and these do not overlap.
pub record IsMapped (p : Pool) (base : ℕ) : Type 0 where
  pub tabled : IsTabled p base
  pub fit :
      (k : ℕ) (h : HugePage)
      → get_elem? p.huge_page_info k ≡ some h
      → h.base_dma_addr + huge_page_size < 2 ^ 64
  pub apart : AllApart p.huge_page_info

contains-other :
    (x h : HugePage) (d : ℕ)
    → x.base_dma_addr + huge_page_size < 2 ^ 64
    → h.base_dma_addr + huge_page_size < 2 ^ 64
    → Apart x h
    → contains_dma h d ≡ true
    → contains_dma x d ≡ false
contains-other x h d fx fh a c = ground arith

-- The search finds the page that holds the address, since the pages before it are apart from it.
find_page-at :
    (n : ℕ) (hs : List HugePage) (k : ℕ) (h : HugePage) (d : ℕ)
    → k < n
    → get_elem? hs k ≡ some h
    → AllApart hs
    → ((j : ℕ) (g : HugePage) → get_elem? hs j ≡ some g → g.base_dma_addr + huge_page_size < 2 ^ 64)
    → contains_dma h d ≡ true
    → find_page n hs d ≡ done (some (virt_in_page h d))
unfolding find_page
find_page-at zero hs k h d lt e ap fit c = elim lt [ ]
find_page-at (suc n) [] k h d lt e ap fit c = ground arith
find_page-at (suc n) (x ∷ hs) zero h d lt e ap fit c = ground arith
find_page-at (suc n) (x ∷ hs) (suc k) h d lt e ap fit c =
    rw
      (contains-other x h d (fit 0 x refl) (fit (suc k) h e)
        (ap 0 (suc k) x h refl e (λ z. absurd (omega arith))) c)
      (find_page-at n hs k h d (omega arith) e
        (λ i j f g p q ne. ap (suc i) (suc j) f g p q (λ z. ne (omega arith)))
        (λ j g p. fit (suc j) g p) c)

-- The translation of an address that lies `off` bytes into the mapping, in the huge page `h`.
module _ {p : Pool} {base : ℕ} (tb : IsTabled p base) (off : ℕ)
    (inside : off < p.num_huge_pages * huge_page_size) (h : HugePage)
    (here : get_elem? p.huge_page_info (off / huge_page_size) ≡ some h) where
  index-lt : off / huge_page_size < p.num_huge_pages
  index-lt = omega arith

  -- The page's bus address and the offset in the page are added modulo 2^64.
  pub get_phy_addr-add64 :
      bf_sys_dma_get_phy_addr_from_pool p (base + off)
      ≡ done (add64 h.base_dma_addr (off % huge_page_size))
  unfolding bf_sys_dma_get_phy_addr_from_pool
  get_phy_addr-add64 =
      rw
        (
          tb.starts,
          ne→not-== p.pool_inited 0 tb.inited,
          ne→not-== (base + off) 0 (omega (arith, tb.positive)),
          index,
          lt→ltb (u32 (off / huge_page_size + 2 ^ 31)) (u32 (p.num_huge_pages + 2 ^ 31))
              (omega (arith, tb.few, index-lt)),
          here,
        )
        (ap (λ t. done (add64 h.base_dma_addr t)) delta)
    where
      index : u32 (sub64 (base + off) base / huge_page_size) ≡ off / huge_page_size
      index = omega (arith, tb.few, index-lt, tb.in_memory)

      delta : sub64 (base + off) h.base_virt_addr ≡ off % huge_page_size
      delta = omega (arith, tb.in_memory, tb.consecutive (off / huge_page_size) h here)

module _ {p : Pool} {base : ℕ} (mp : IsMapped p base) (off : ℕ)
    (inside : off < p.num_huge_pages * huge_page_size) (h : HugePage)
    (here : get_elem? p.huge_page_info (off / huge_page_size) ≡ some h) where
  pub page-fit : h.base_dma_addr + huge_page_size < 2 ^ 64
  page-fit = mp.fit (off / huge_page_size) h here

  -- In a pool whose table covers its mapping and whose pages have bus addresses that do not wrap or
  -- overlap, the bus address of an address in the mapping is as far into the bus address of its huge
  -- page as the virtual address is in the page.
  pub get_phy_addr_lem :
      bf_sys_dma_get_phy_addr_from_pool p (base + off)
      ≡ done (h.base_dma_addr + off % huge_page_size)
  get_phy_addr_lem =
      get_phy_addr-add64 mp.tabled off inside h here ∙ ap done (omega (arith, page-fit))

  -- In a pool whose table covers its mapping and whose pages have bus addresses that do not wrap or
  -- overlap, `bf_mem_dma2virt` takes the bus address of
  -- an address in the mapping back to that address.
  pub dma2virt-get_phy_addr :
      (d : ℕ)
      → bf_sys_dma_get_phy_addr_from_pool p (base + off) ≡ done d
      → bf_mem_dma2virt p d ≡ done (some (base + off))
  unfolding bf_mem_dma2virt
  dma2virt-get_phy_addr d e =
      ap (bf_mem_dma2virt p) at_dma
      ∙ (ap (λ (n : ℕ). find_page n p.huge_page_info (h.base_dma_addr + off % huge_page_size)) all
          ∙ (find_page-at p.num_huge_pages p.huge_page_info (off / huge_page_size) h
                (h.base_dma_addr + off % huge_page_size) (index-lt mp.tabled off inside h here) here
                mp.apart mp.fit (ground (arith, page-fit))
              ∙ ap (λ (t : ℕ). done (some t)) back))
    where
      at_dma : d ≡ h.base_dma_addr + off % huge_page_size
      at_dma = done_injective (sym e ∙ get_phy_addr_lem)

      all : rounds p.num_huge_pages ≡ p.num_huge_pages
      all = rw (lt→ltb p.num_huge_pages (2 ^ 31) mp.tabled.few)

      back : virt_in_page h (h.base_dma_addr + off % huge_page_size) ≡ base + off
      back = omega (
        arith,
        page-fit,
        mp.tabled.in_memory,
        mp.tabled.consecutive (off / huge_page_size) h here,
      )
