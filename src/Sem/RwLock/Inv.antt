-- ===== src/Sem/RwLock/Inv.antt =====
-- The counters of the lock are the numbers of threads, and a writer is alone.
use target_syslibs.Base.{ℕ, ◌+◌, ◌≤◌, ◌≡◌}
use target_syslibs.Base.Threads.{tally}
use target_syslibs.Sem.RwLock.{Lock, Thread}
use target_syslibs.Sem.RwLock.Count.{
  is_reading, is_writing, is_r_asleep, is_r_woken, is_w_asleep, is_w_woken,
}

pub record Inv (n : ℕ) (l : Lock) (pc : ℕ → Thread) : Type 0 where
  pub readers : l.r_active ≡ tally is_reading n pc
  pub writers : l.w_active ≡ tally is_writing n pc
  pub r_waiters : l.r_wait ≡ tally is_r_asleep n pc + tally is_r_woken n pc
  pub w_waiters : l.w_wait ≡ tally is_w_asleep n pc + tally is_w_woken n pc
  pub one_writer : l.w_active ≤ 1
  pub alone : l.w_active ≡ 1 → l.r_active ≡ 0
