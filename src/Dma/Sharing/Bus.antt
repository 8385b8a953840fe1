-- ===== src/Dma/Sharing/Bus.antt =====
-- What a device sees of the buffers that several threads hold: their addresses on the bus.
use native.Mathlib.Nat.{one-le-pow}
use target_syslibs.Base.{
  ℕ, ◌+◌, ◌-◌, ◌*◌, ◌/◌, ◌^◌, ◌≤◌, ◌<◌, ◌≡◌, ◌≢◌, ◌⊎◌, inl, inr, sym, ap, ◌∙◌, some, get_elem?,
  get_elem?_of_lt, arith,
}
use target_syslibs.Base.Outcome.{done}
use target_syslibs.Dma.Align.{huge_page_size}
use target_syslibs.Dma.Pool.{HugePage, Pool}
use target_syslibs.Dma.Geometry.Crossing.{power-InOnePage}
use target_syslibs.Dma.Machine.{Machine, System}
use target_syslibs.Dma.Machine.Lawful.{IsLawful}
use target_syslibs.Dma.Create.{Args, header_for, bf_sys_dma_pool_create}
use target_syslibs.Dma.Create.Post.{Created}
use target_syslibs.Dma.Create.Checks.{aligned_size}
use target_syslibs.Dma.Address.{bf_sys_dma_get_phy_addr_from_pool}
use target_syslibs.Dma.Address.Pages.{IsMapped, AllApart}
use target_syslibs.Dma.Address.Disjoint.{get_phy_addr-apart}
use target_syslibs.Dma.Buffers.Fresh.{Created-IsTabled}
use target_syslibs.Dma.Gate.{Reach}
use target_syslibs.Dma.Gate
use target_syslibs.Dma.Gate.Inv.{held}
use target_syslibs.Dma.Sharing.{created, slot, slot_lt, place, apart}

module _ {s : System} (lawful : IsLawful s) (a : Args) (m m₁ : Machine) (p : Pool)
    (int : a.cnt < 2 ^ 32) (unsigned : a.align < 2 ^ 32)
    (made : bf_sys_dma_pool_create s a m ≡ done (some p, m₁)) (log : ℕ)
    (power : p.buf_size ≡ 2 ^ log) (small : p.buf_size ≤ huge_page_size)
    (fit : (k : ℕ) (h : HugePage)
      → get_elem? p.huge_page_info k ≡ some h
      → h.base_dma_addr + huge_page_size < 2 ^ 64)
    (far : AllApart p.huge_page_info) where
  abbrev size : ℕ
  size = aligned_size a

  c : Created s.map_fn a size m p m₁
  c = created lawful a m m₁ p int unsigned made (omega (arith, power, one-le-pow log 2))

  sized : size ≡ 2 ^ log
  sized = sym c.buf_size ∙ power

  positive : 0 < size
  positive = omega (arith, sized, one-le-pow log 2)

  fits : size ≤ huge_page_size
  fits = omega (arith, c.buf_size)

  mapped : IsMapped p c.base
  mapped = record { tabled = Created-IsTabled c fits positive; fit = fit; apart = far }

  -- How far a buffer is into the mapping.
  abbrev offset : ℕ → ℕ
  offset k = header_for size a.cnt + k * size

  module _ (k v : ℕ) (at_k : get_elem? p.pool_buf_ptr k ≡ some v) where
    is_at : v ≡ c.base + offset k
    is_at = omega (arith, place c positive k v at_k)

    offset_inside : offset k < p.num_huge_pages * huge_page_size
    offset_inside = omega (arith, c.inside, scaled, positive)
      where
        scaled : k * size + size ≤ size * a.cnt
        scaled = let lt = slot_lt c positive k v at_k in grind arith

    one_page : offset k / huge_page_size ≡ (offset k + size - 1) / huge_page_size
    one_page =
        power-InOnePage (record { small = fits; count = c.cnt_lt }) k (slot_lt c positive k v at_k)
          log sized

    page : (h : HugePage) × (get_elem? p.huge_page_info (offset k / huge_page_size) ≡ some h)
    page =
        get_elem?_of_lt p.huge_page_info (offset k / huge_page_size)
          (omega (arith, offset_inside, c.table))

  -- On a lawful system, when pool creation returns a pool whose buffers have a size that is a power of
  -- two up to a huge page, and whose pages have bus addresses that do not wrap or overlap: whatever
  -- the interleaving, two different buffers that are held, or buffers held by two threads, have no bus
  -- address in common.
  pub bus_apart :
      {n : ℕ} {t : Gate.System} (r : Reach n p.buf_cnt p.pool_buf_ptr t) (i j v w : ℕ)
      → i < n
      → j < n
      → 0 < held v (t.pc i)
      → 0 < held w (t.pc j)
      → (i ≢ j) ⊎ (v ≢ w)
      → (d e : ℕ) → bf_sys_dma_get_phy_addr_from_pool p v ≡ done d
      → bf_sys_dma_get_phy_addr_from_pool p w ≡ done e
      → (d + p.buf_size ≤ e) ⊎ (e + p.buf_size ≤ d)
  bus_apart r i j v w hi hj mine yours differ d e at_d at_e =
      let (k, at_k) = slot c positive r i v hi mine in
      let (l, at_l) = slot c positive r j w hj yours in
      let (g, x_here) = page k v at_k in
      let (h, y_here) = page l w at_l in
      let disjoint = apart c positive r i j v w hi hj mine yours differ in
      rw (c.buf_size) (
        get_phy_addr-apart mapped size (offset k) (offset l) positive (offset_inside k v at_k)
          (offset_inside l w at_l) (one_page k v at_k) (one_page l w at_l) g h x_here y_here d e
          (ap (bf_sys_dma_get_phy_addr_from_pool p) (sym (is_at k v at_k)) ∙ at_d)
          (ap (bf_sys_dma_get_phy_addr_from_pool p) (sym (is_at l w at_l)) ∙ at_e)
          (elim disjoint [
            | inl b ↦ inl (omega (arith, is_at k v at_k, is_at l w at_l))
            | inr b ↦ inr (omega (arith, is_at k v at_k, is_at l w at_l))
          ]))
