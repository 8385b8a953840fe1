-- ===== src/Dma/Single.antt =====
-- Pools of one buffer: `bf_sys_dma_buffer_alloc` and `bf_sys_dma_buffer_free`.
pub mod Whole
use target_syslibs.Base.{ℕ, Option, none, some, List, if◌then◌else◌}
use target_syslibs.Base.Outcome.{Outcome, done, aborted, faulted}
use target_syslibs.Dma.Pool.{Pool}
use target_syslibs.Dma.Machine.{System, M, pure, ◌>>=◌, ◌>>◌}
use target_syslibs.Dma.Create.{bf_sys_dma_pool_create}
use target_syslibs.Dma.Destroy.{bf_sys_dma_pool_destroy}
use target_syslibs.Dma.Buffers.{Alloc, bf_sys_dma_alloc, bf_sys_dma_free}

-- A call that touches no memory but the pool's.
abbrev lift : {A : Type 0} → Outcome A → M A
lift (done a) m = done (a, m)
lift aborted m = aborted
lift faulted m = faulted
lift Outcome.blocked m = Outcome.blocked

-- The buffer of the new pool; without it, or with one that has no address, the pool is destroyed.
unfoldable pub buffer_of : System → (size : ℕ) → Option Pool → M (Option (Pool × Alloc))
unfolding bf_sys_dma_pool_destroy bf_sys_dma_alloc
buffer_of s size none = pure none
buffer_of s size (some p) = do
  (r, q) ← lift (bf_sys_dma_alloc p size)
  if r.success then pure (some (q, r)) else (do bf_sys_dma_pool_destroy s q; pure none)

-- A single buffer is aligned to 64 bytes. `none` for the pool is the result -1.
unfoldable pub bf_sys_dma_buffer_alloc :
    System → List ℕ → (hndl dev_id subdev_id size : ℕ) → M (Option (Pool × Alloc))
unfolding bf_sys_dma_pool_create buffer_of
bf_sys_dma_buffer_alloc s pool_name hndl dev_id subdev_id size = do
  made ← bf_sys_dma_pool_create s (record {
    pool_name = pool_name;
    hndl = hndl;
    dev_id = dev_id;
    subdev_id = subdev_id;
    size = size;
    cnt = 1;
    align = 64;
  })
  buffer_of s size made

unfoldable pub bf_sys_dma_buffer_free : System → Pool → ℕ → M (Unit {0})
unfolding bf_sys_dma_pool_destroy bf_sys_dma_free
bf_sys_dma_buffer_free s p v_addr = do
  q ← lift (bf_sys_dma_free p v_addr)
  bf_sys_dma_pool_destroy s q
