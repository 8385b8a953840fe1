-- ===== src/Dma/Buffers.antt =====
-- `bf_sys_dma_alloc` and `bf_sys_dma_free`, and the calls that have nothing to do on Linux.
pub mod Client
pub mod Fresh
use target_syslibs.Base.{
  ℕ, ◌+◌, ◌-◌, ◌^◌, Bool, true, false, not, Option, none, some, List, if◌then◌else◌, leb, ◌==◌,
}
use target_syslibs.Base.Outcome.{Outcome, done, assert, ◌>>=◌, ◌>>◌}
use target_syslibs.Dma.Pool.{Pool, invalid_phy_addr}
use target_syslibs.Dma.Queue.{pop_free_buf, push_free_buf}
use target_syslibs.Dma.Address.{bf_sys_dma_get_phy_addr_from_pool}

-- What the caller sees of `bf_sys_dma_alloc`; `success` is the result 0.
pub record Alloc : Type 0 where
  pub success : Bool
  pub v_addr : ℕ
  pub phys_addr : ℕ

-- An invalid physical address is an error, and the buffer is not pushed back.
unfoldable pub bf_sys_dma_alloc : Pool → ℕ → Outcome (Alloc × Pool)
unfolding pop_free_buf bf_sys_dma_get_phy_addr_from_pool
bf_sys_dma_alloc p size = do
  assert (leb size p.buf_size)
  (popped, q) ← pop_free_buf p
  elim popped [
    | none ↦ done (record { success = false; v_addr = 0; phys_addr = 0 }, q)
    | some v ↦ do
      phys ← bf_sys_dma_get_phy_addr_from_pool q v
      done (record { success = not (phys == invalid_phy_addr); v_addr = v; phys_addr = phys }, q)
  ]

-- The result of the push is not looked at.
unfoldable pub bf_sys_dma_free : Pool → ℕ → Outcome Pool
unfolding push_free_buf
bf_sys_dma_free p v_addr = do assert (not (v_addr == 0)); (r, q) ← push_free_buf p v_addr; done q

-- `bf_sys_dma_map` gives the physical address as the bus address.
unfoldable pub bf_sys_dma_map : ℕ → ℕ
bf_sys_dma_map phys_addr = phys_addr

-- The calls that do nothing and return 0.
unfoldable pub bf_sys_dma_unmap : (hndl cpu_vaddr size direction : ℕ) → ℕ
bf_sys_dma_unmap hndl cpu_vaddr size direction = 0

unfoldable pub bf_sys_dma_cache_flush : (cpu_vaddr size : ℕ) → ℕ
bf_sys_dma_cache_flush cpu_vaddr size = 0

unfoldable pub bf_sys_dma_cache_invalidate : (cpu_vaddr size : ℕ) → ℕ
bf_sys_dma_cache_invalidate cpu_vaddr size = 0

unfoldable pub bf_sys_dma_lib_init : (param1 param2 param3 : ℕ) → ℕ
bf_sys_dma_lib_init param1 param2 param3 = 0
