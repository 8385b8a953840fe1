-- ===== src/Dma/Buffers/Fresh.antt =====
-- The buffers of a new pool: their numbers and their place in the table of huge pages.
use native.Mathlib.Nat.{mul_comm}
use target_syslibs.Base.{ℕ, ◌+◌, ◌*◌, ◌≤◌, ◌<◌, ◌≡◌, Option, ap, ◌∙◌, some, get_elem?, arith}
use target_syslibs.Base.Outcome.{done}
use target_syslibs.Dma.Align.{huge_page_size}
use target_syslibs.Dma.Pool.{Pool}
use target_syslibs.Dma.Geometry.{header_for_bounds}
use target_syslibs.Dma.Machine.{Machine, MapFn}
use target_syslibs.Dma.Create.{Args, header_for}
use target_syslibs.Dma.Create.Post.{Created}
use target_syslibs.Dma.Address.{bf_sys_dma_buffer_index}
use target_syslibs.Dma.Address.Index.{IsLaidOut, buffer_index_inside}
use target_syslibs.Dma.Address.Pages.{IsTabled}

module _ {o : Option MapFn} {a : Args} {size : ℕ} {m m' : Machine} {p : Pool}
    (c : Created o a size m p m') (small : size ≤ huge_page_size) (positive : 0 < size) where
  swap : p.buf_cnt * p.buf_size ≡ size * a.cnt
  swap = rw (c.buf_cnt, c.buf_size) (mul_comm a.cnt size)

  fresh-IsLaidOut : IsLaidOut p
  fresh-IsLaidOut = record {
    positive = omega (arith, c.buf_size);
    few = omega (arith, c.buf_cnt, c.cnt_lt);
    in_memory = omega (arith, swap, c.pool_ptr, c.inside, c.in_memory);
  }

  pub Created-IsTabled : IsTabled p c.base
  Created-IsTabled = record {
    inited = omega (arith, c.inited);
    starts = omega (
      arith,
      c.start,
      c.header,
      c.in_memory,
      header_for_bounds (record { small = small; count = c.cnt_lt }),
    );
    positive = c.base_pos;
    in_memory = omega (arith, c.in_memory);
    table = c.table;
    few = omega (arith, c.in_memory);
    consecutive = c.virt;
  }

  -- In a pool that creation returned, with buffers of at least a byte and at most a huge page, the free
  -- list has a buffer for each number below the count, and `bf_sys_dma_buffer_index` gives that number
  -- for every byte of the buffer.
  pub fresh-buffer_index :
      (i d : ℕ)
      → i < a.cnt
      → d < size
      → (v : ℕ) × (get_elem? p.pool_buf_ptr i ≡ some v)
        × (bf_sys_dma_buffer_index p (v + d) ≡ done i)
  fresh-buffer_index i d hi hd = (
    c.base + header_for size a.cnt + i * size,
    c.buffer i hi,
    ap (bf_sys_dma_buffer_index p) place
        ∙ buffer_index_inside fresh-IsLaidOut i d (omega (arith, c.buf_cnt))
            (omega (arith, c.buf_size)),
  )
    where
      place : c.base + header_for size a.cnt + i * size + d ≡ p.pool_ptr + i * p.buf_size + d
      place = grind (arith, c.pool_ptr, c.buf_size)
