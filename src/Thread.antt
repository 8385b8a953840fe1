-- ===== src/Thread.antt =====
-- src/bf_sal/linux_usr/bf_sys_thread.c: each function passes its arguments to one call of the threads
-- library, which is a parameter over a state `W`.
pub mod Posix
pub mod Reports
mod Toy
mod Tests
use target_syslibs.Base.{ℕ, List}
use target_syslibs.Base.Outcome.{Outcome}

-- `i` is the calling thread. A call that begins a thread also gives the handle that it stores, and one
-- that waits for a thread the status that it stores; a thread function and its argument are addresses.
pub record Library (W : Type 0) : Type 0 where
  pub create : (fn arg : ℕ) → W → Outcome ((ℕ × ℕ) × W)
  pub exit : (i status : ℕ) → W → W
  pub cancel : (th : ℕ) → W → Outcome (ℕ × W)
  pub detach : (th : ℕ) → W → Outcome (ℕ × W)
  pub join : (i th : ℕ) → W → Outcome ((ℕ × ℕ) × W)
  pub self : (i : ℕ) → W → ℕ
  pub setname : (th : ℕ) (name : List ℕ) → W → Outcome (ℕ × W)
  pub yield : (i : ℕ) → W → Outcome (ℕ × W)

module _ {W : Type 0} (t : Library W) where
  -- The flags are not used.
  unfoldable pub bf_sys_thread_create : (fn arg flags : ℕ) → W → Outcome ((ℕ × ℕ) × W)
  bf_sys_thread_create fn arg flags = t.create fn arg

  unfoldable pub bf_sys_thread_exit : (i status : ℕ) → W → W
  bf_sys_thread_exit i status = t.exit i status

  unfoldable pub bf_sys_thread_cancel : (thr : ℕ) → W → Outcome (ℕ × W)
  bf_sys_thread_cancel thr = t.cancel thr

  unfoldable pub bf_sys_thread_detach : (thr : ℕ) → W → Outcome (ℕ × W)
  bf_sys_thread_detach thr = t.detach thr

  unfoldable pub bf_sys_thread_join : (i thr : ℕ) → W → Outcome ((ℕ × ℕ) × W)
  bf_sys_thread_join i thr = t.join i thr

  unfoldable pub bf_sys_thread_self : (i : ℕ) → W → ℕ
  bf_sys_thread_self i = t.self i

  unfoldable pub bf_sys_thread_set_name : (thr : ℕ) (name : List ℕ) → W → Outcome (ℕ × W)
  bf_sys_thread_set_name thr name = t.setname thr name

  unfoldable pub bf_sys_thread_yield : (i : ℕ) → W → Outcome (ℕ × W)
  bf_sys_thread_yield i = t.yield i
