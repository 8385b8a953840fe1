-- ===== src/Dma/Queue.antt =====
-- The LIFO of free buffers: `bf_pop_free_buf` and `bf_push_free_buf`, as one thread runs them.
pub mod Stack
use target_syslibs.Base.{
  ℕ, ◌+◌, ◌-◌, Option, none, some, Bool, true, false, List, if◌then◌else◌, leb, ltb, ◌==◌, ◌||◌,
  length, get_elem?, set,
}
use target_syslibs.Base.Outcome.{Outcome, done, blocked, faulted, defined, ◌>>=◌}
use target_syslibs.Base.Words.{u32}
use target_syslibs.Dma.Pool.{Pool}

-- `while (__sync_val_compare_and_swap(&pool->pool_gate, 0, 1) == 1);` run alone: with the gate
-- closed nobody opens it, so the loop never ends.
unfoldable close_gate : Pool → Outcome Pool
close_gate p =
    if p.pool_gate == 1
    then blocked
    else done (if p.pool_gate == 0 then record p { pool_gate = 1 } else p)

unfoldable pub open_gate : Pool → Pool
open_gate p = if p.pool_gate == 1 then record p { pool_gate = 0 } else p

-- The part between the gates. `none` is the result -1.
unfoldable take_buf : Pool → Outcome (Option ℕ × Pool)
take_buf p = if leb (u32 p.buf_cnt) p.pool_buf_offset then done (none, p) else (do
  b ← defined (get_elem? p.pool_buf_ptr p.pool_buf_offset)
  done (some b, record p { pool_buf_offset = u32 (p.pool_buf_offset + 1) }))

unfoldable pub pop_free_buf : Pool → Outcome (Option ℕ × Pool)
unfolding close_gate open_gate take_buf
pop_free_buf p = do q ← close_gate p; (r, q') ← take_buf q; done (r, open_gate q')

-- `false` is the result -1.
unfoldable put_buf : Pool → ℕ → Outcome (Bool × Pool)
put_buf p b =
    if p.pool_buf_offset == 0 || ltb (u32 p.buf_cnt) p.pool_buf_offset
    then done (false, p)
    else if ltb (p.pool_buf_offset - 1) (length p.pool_buf_ptr)
    then done (
      true,
      record p {
        pool_buf_offset = p.pool_buf_offset - 1;
        pool_buf_ptr = set p.pool_buf_ptr (p.pool_buf_offset - 1) b;
      },
    )
    else faulted

unfoldable pub push_free_buf : Pool → ℕ → Outcome (Bool × Pool)
unfolding close_gate open_gate put_buf
push_free_buf p b = do q ← close_gate p; (r, q') ← put_buf q b; done (r, open_gate q')
