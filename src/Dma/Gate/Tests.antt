-- ===== src/Dma/Gate/Tests.antt =====
-- The gate's theorems at concrete runs of two threads over two buffers.
use target_syslibs.Base.{
  count, Bool, Option, map, ◌↔◌, ℕ, ◌+◌, ◌≤◌, ◌<◌, ◌≡◌, ◌⊎◌, refl, List, [], ◌∷◌, ◌++◌, some, drop,
  arith,
}
use target_syslibs.Base.Threads.{assign, tally}
use target_syslibs.Base.Outcome.{done}
use target_syslibs.Dma.Pool.{Pool}
use target_syslibs.Dma.Queue.{pop_free_buf, push_free_buf}
use target_syslibs.Dma.Queue.Stack.{take, taken, serve_stack}
use target_syslibs.Dma.Gate.{Shared, System, pick, pop_read, pop_more, pop_spin, push_spin, receive}
use target_syslibs.Dma.Gate.Atomic.{request, reply, stack_after}
use target_syslibs.Dma.Gate.Logs.{ThreadLog}
use target_syslibs.Dma.Gate.Linear.{history, linearizable}
use target_syslibs.Dma.Gate.Alone.{shared, Alone}
use target_syslibs.Dma.Gate.Sequential.{uninterrupted_call}
use target_syslibs.Dma.Gate.Inv.{storing, held, held_total}
use target_syslibs.Dma.Gate.Run.{Run, run}
use target_syslibs.Dma.Gate.Onward.{Onward, stop, go, Next, IsIdle}
use target_syslibs.Dma.Gate.Progress.{calls_return}
use target_syslibs.Dma.Gate.Safety.{no_double_allocation, conservation}

abbrev bufs : List ℕ
bufs = 4096 ∷ 8192 ∷ []

abbrev call : ℕ → List ℕ
call i = i ∷ i ∷ i ∷ i ∷ i ∷ i ∷ i ∷ []

-- Thread 0 is behind the gate and thread 1 waits before it.
abbrev contended : Run 2 2 bufs
contended = run 2 2 bufs (0 ∷ 0 ∷ 1 ∷ 1 ∷ [])

-- Each of the two threads holds a buffer.
abbrev both_out : Run 2 2 bufs
both_out = run 2 2 bufs (call 0 ++ call 1)

both_out_state : (both_out.last.mem.offset ≡ 2) × (both_out.last.mem.gate ≡ 0)
unfolding run
both_out_state = (refl, refl)

bufs-once : (b : ℕ) → count b bufs ≤ 1
bufs-once b = ground arith

no_double_allocation_example : ◌≡◌ {A = ℕ} 1 1
unfolding run
no_double_allocation_example =
    no_double_allocation refl both_out.reach bufs-once 1 1 8192 (omega arith) (omega arith)
      (omega arith) (omega arith)

conservation_example :
    ((b : ℕ)
      → count b (drop both_out.last.mem.offset both_out.last.mem.queue)
          + tally (held b) 2 both_out.last.pc
        ≡ count b bufs)
    × (both_out.last.mem.offset ≡ tally held_total 2 both_out.last.pc)
unfolding run
conservation_example = conservation refl both_out.reach refl

-- Thread 1 takes effect first and thread 0 second; thread 0 has not returned.
abbrev overtaken : Run 2 2 bufs
overtaken = run 2 2 bufs (0 ∷ call 1 ++ 0 ∷ 0 ∷ 0 ∷ 0 ∷ 0 ∷ [])

overtaken_history :
    history overtaken.reach ≡ (take, taken (some 4096)) ∷ (take, taken (some 8192)) ∷ []
unfolding run
overtaken_history = refl

linearizable_example :
    (serve_stack 2 bufs (map request (history overtaken.reach))
      ≡ map reply (history overtaken.reach))
    × (stack_after 2 bufs (map request (history overtaken.reach))
        ≡ drop
            (overtaken.last.mem.offset + tally storing 2 overtaken.last.pc)
            overtaken.last.mem.queue)
    × ((i : ℕ) → ThreadLog overtaken.reach i)
linearizable_example = linearizable refl overtaken.reach

-- A pool with one of its two buffers out.
abbrev one_out : Pool
one_out = record {
  self = 64;
  pool_inited = 1;
  pool_id = 0;
  hdr_size = 128;
  pool_ptr = 4096;
  buf_start = 4096;
  buf_cnt = 2;
  buf_size = 4096;
  alignment = 64;
  queue_block = 192;
  pool_buf_ptr = bufs;
  pool_buf_offset = 1;
  base_phy_addr = 0;
  pool_gate = 0;
  name = [];
  info_block = 256;
  huge_page_info = [];
  num_huge_pages = 0;
  pool_hdr_offset = 0;
  fd = 0;
  dev_id = 0;
  subdev_id = 0;
}

-- The pool's words and the caller's buffers after its second buffer is taken.
abbrev all_out : Shared
all_out = record { gate = 0; offset = 2; cnt = 2; queue = bufs }

abbrev second : List ℕ
second = 8192 ∷ []

uninterrupted_call_example :
    (Alone all_out second (shared one_out) (pop_spin []) ↔ (
      (r : Option ℕ) × (q : Pool) × (pop_free_buf one_out ≡ done (r, q))
      × (all_out ≡ shared q)
      × (second ≡ receive r [])))
    × (Alone all_out second (shared one_out) (push_spin [] 4096) ↔ (
        (ok : Bool) × (q : Pool) × (push_free_buf one_out 4096 ≡ done (ok, q))
        × (all_out ≡ shared q)
        × (second ≡ [])))
uninterrupted_call_example =
    uninterrupted_call
      (record { slots = refl; small = omega arith; in_range = omega arith; open_gate = refl }) []
      all_out second 4096

-- Thread 0 has found that a buffer is free.
abbrev found : System
found = record { mem = contended.last.mem; pc = assign contended.last.pc 0 (pop_read []) }

one_access : Onward 2 1 contended.last found
unfolding run
one_access = go (pick 0 (omega arith) (pop_more (omega arith))) tt stop

calls_return_example : (1 ≤ 16) × (((i : ℕ) → i < 2 → IsIdle (found.pc i)) ⊎ Next 2 found)
calls_return_example = calls_return refl contended.reach one_access
