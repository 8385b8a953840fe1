-- ===== src/Dma/Destroy.antt =====
-- `bf_sys_dma_pool_destroy` with `free_huge_pages`.
pub mod RoundTrip
use target_syslibs.Base.{
  ℕ, zero, suc, ◌+◌, ◌-◌, ◌/◌, ◌%◌, ◌^◌, Bool, true, false, not, Option, none, some, List, [], ◌∷◌,
  if◌then◌else◌, ◌==◌,
}
use target_syslibs.Base.Outcome.{Outcome, done, aborted, faulted}
use target_syslibs.Base.Words.{u32, sub64, rounds}
use target_syslibs.Dma.Align.{huge_page_size}
use target_syslibs.Dma.Pool.{HugePage, Pool}
use target_syslibs.Dma.Machine.{
  Machine, System, UnmapFn, M, pure, ◌>>=◌, ◌>>◌, check, bf_sys_free, munmap, load, take_off,
}

-- The loop over the pages, with the rounds that are left. An error of the registered function stops
-- the process, and a step past the end of the array is undefined.
pub unmap_pages : UnmapFn → ℕ → ℕ → ℕ → List HugePage → M (Unit {0})
unmap_pages unmap_fn dev_id subdev_id zero hs m = done (tt, m)
unmap_pages unmap_fn dev_id subdev_id (suc n) [] m = faulted
unmap_pages unmap_fn dev_id subdev_id (suc n) (h ∷ hs) m =
    let rest =
      unmap_pages unmap_fn dev_id subdev_id n hs
        (record m { bus = take_off dev_id subdev_id h.base_dma_addr m.bus }) in
    if unmap_fn dev_id subdev_id h.base_dma_addr then aborted else rest

unfoldable pub unmap_all : System → ℕ → ℕ → ℕ → List HugePage → M (Unit {0})
unfolding unmap_pages
unmap_all s dev_id subdev_id n hs = elim s.unmap_fn [
  | none ↦ pure tt
  | some unmap_fn ↦ unmap_pages unmap_fn dev_id subdev_id n hs
]

unfoldable pub free_huge_pages : System → ℕ → ℕ → List HugePage → ℕ → ℕ → M (Unit {0})
unfolding unmap_all load munmap
free_huge_pages s dev_id subdev_id base_huge_page ptr header_offset =
    if ptr == 0 then pure tt else (do
      let huge_ptr = sub64 ptr header_offset
      actual_size ← load huge_ptr
      check (not (actual_size == 0))
      check (actual_size % huge_page_size == 0)
      unmap_all s dev_id subdev_id (rounds (u32 (actual_size / huge_page_size))) base_huge_page
      munmap huge_ptr actual_size)

unfoldable pub bf_sys_dma_pool_destroy : System → Pool → M (Unit {0})
unfolding free_huge_pages bf_sys_free
bf_sys_dma_pool_destroy s p = do
  free_huge_pages s p.dev_id p.subdev_id p.huge_page_info p.pool_ptr p.pool_hdr_offset
  bf_sys_free p.queue_block
  bf_sys_free p.info_block
  bf_sys_free p.self
