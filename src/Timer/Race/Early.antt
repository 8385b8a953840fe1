-- ===== src/Timer/Race/Early.antt =====
-- What can happen since `inited` is set before the mutex is initialised.
use target_syslibs.Base.{ℕ, ◌≤◌, ◌≡◌, inl, refl, true, arith}
use target_syslibs.Timer.Race.{
  working, inside, System, set_inited, make_mutex, first_acquire, client_checks, client_locks,
  zeroed, Later, now, then,
}

-- With one other thread or more, a state can come about in which a thread is inside
-- `bf_sys_timer_start` or `bf_sys_timer_stop` while the thread of the loop is at work in `ev_loop`: it
-- locks the mutex between the setting of `inited` and `pthread_mutex_init`, which frees the mutex.
pub both_at_work :
    (n : ℕ)
    → 1 ≤ n
    → (s : System) × Later true n zeroed s × (s.client 0 ≡ inside) × (s.loop ≡ working)
both_at_work n h = (
  _,
  then
      (then
        (then (then (then now (set_inited refl)) (client_checks 0 (omega arith) refl refl))
          (client_locks 0 (omega arith) refl refl (inl refl)))
        (make_mutex refl))
      (first_acquire refl refl),
  refl,
  refl,
)
