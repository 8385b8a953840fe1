-- ===== src/Dma/Address/Disjoint.antt =====
-- Parts of a mapping that are apart, each in one huge page, are apart on the bus.
use target_syslibs.Base.{
  ℕ, ◌+◌, ◌-◌, ◌*◌, ◌/◌, ◌%◌, ◌≤◌, ◌<◌, ◌≡◌, ◌⊎◌, inl, inr, sym, ◌∙◌, some, get_elem?, ℕ_discrete,
  arith,
}
use target_syslibs.Base.Outcome.{done, done_injective}
use target_syslibs.Dma.Align.{huge_page_size}
use target_syslibs.Dma.Pool.{HugePage, Pool}
use target_syslibs.Dma.Address.{bf_sys_dma_get_phy_addr_from_pool}
use target_syslibs.Dma.Address.Pages.{IsMapped, get_phy_addr_lem}

-- The place in its page of a part that lies in one page.
page_rest :
    (off size : ℕ)
    → 0 < size
    → off / huge_page_size ≡ (off + size - 1) / huge_page_size
    → off % huge_page_size + size ≤ huge_page_size
page_rest off size pos one = omega (arith, one)

module _ {p : Pool} {base : ℕ} (mp : IsMapped p base) (size x y : ℕ) (pos : 0 < size)
    (x_inside : x < p.num_huge_pages * huge_page_size)
    (y_inside : y < p.num_huge_pages * huge_page_size)
    (x_page : x / huge_page_size ≡ (x + size - 1) / huge_page_size)
    (y_page : y / huge_page_size ≡ (y + size - 1) / huge_page_size) (g h : HugePage)
    (x_here : get_elem? p.huge_page_info (x / huge_page_size) ≡ some g)
    (y_here : get_elem? p.huge_page_info (y / huge_page_size) ≡ some h) where
  same_page : x / huge_page_size ≡ y / huge_page_size → g.base_dma_addr ≡ h.base_dma_addr
  same_page e = let there = rw e at x_here in cc

  on_bus :
      (x + size ≤ y) ⊎ (y + size ≤ x)
      → (g.base_dma_addr + x % huge_page_size + size ≤ h.base_dma_addr + y % huge_page_size)
        ⊎ (h.base_dma_addr + y % huge_page_size + size ≤ g.base_dma_addr + x % huge_page_size)
  on_bus far = elim (ℕ_discrete (x / huge_page_size) (y / huge_page_size)) [
    | yes e ↦ elim far [
      | inl l ↦ inl (omega (arith, same_page e))
      | inr l ↦ inr (omega (arith, same_page e))
    ]
    | no ne ↦ elim (mp.apart (x / huge_page_size) (y / huge_page_size) g h x_here y_here ne) [
      | inl l ↦ inl (omega (arith, page_rest x size pos x_page))
      | inr l ↦ inr (omega (arith, page_rest y size pos y_page))
    ]
  ]

  pub get_phy_addr-apart :
      (d e : ℕ)
      → bf_sys_dma_get_phy_addr_from_pool p (base + x) ≡ done d
      → bf_sys_dma_get_phy_addr_from_pool p (base + y) ≡ done e
      → (x + size ≤ y) ⊎ (y + size ≤ x)
      → (d + size ≤ e) ⊎ (e + size ≤ d)
  get_phy_addr-apart d e at_d at_e far = rw (d_is, e_is) (on_bus far)
    where
      d_is : d ≡ g.base_dma_addr + x % huge_page_size
      d_is = done_injective (sym at_d ∙ get_phy_addr_lem mp x x_inside g x_here)

      e_is : e ≡ h.base_dma_addr + y % huge_page_size
      e_is = done_injective (sym at_e ∙ get_phy_addr_lem mp y y_inside h y_here)
