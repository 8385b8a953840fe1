-- ===== src/Sem/RwLock/Failing.antt =====
-- What a failing `pthread_cond_wait` does to the threads that sleep behind a waiting writer.
use target_syslibs.Base.{ℕ, ◌≤◌, ◌≡◌, ◌≢◌, refl, true, arith}
use target_syslibs.Sem.RwLock.{
  idle, r_asleep, rdlock_enter, wrlock_enter, wrlock_resume, rdunlock_part, no_signal, System,
  rd_call, wr_call, wr_resume, rd_unlock, spurious_writer, Reach, start, later,
}

-- If waits can fail, then with three threads or more a state is reachable in which a reader sleeps,
-- the lock has no holder and no waiting writer, and all other threads are idle: nobody wakes it.
pub lost_wakeup :
    (n : ℕ)
    → 3 ≤ n
    → (s : System) × Reach true n s
      × (s.pc 2 ≡ r_asleep)
      × ((j : ℕ) → j ≢ 2 → s.pc j ≡ idle)
      × (s.lock.r_active ≡ 0)
      × (s.lock.w_active ≡ 0)
      × (s.lock.w_wait ≡ 0)
unfolding rdlock_enter wrlock_enter wrlock_resume rdunlock_part
lost_wakeup n h = (
  _,
  later
      (later
        (later
          (later (later (later start (rd_call 0 (omega arith) refl)) (wr_call 1 (omega arith) refl))
            (rd_call 2 (omega arith) refl))
          (spurious_writer 1 (omega arith) refl))
        (wr_resume 1 true (omega arith) refl (λ e. refl)))
      (rd_unlock 0 _ (omega arith) refl no_signal),
  refl,
  λ j d. ground arith,
  refl,
  refl,
  refl,
)
