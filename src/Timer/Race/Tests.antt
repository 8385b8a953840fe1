-- ===== src/Timer/Race/Tests.antt =====
-- The theorems on the mutex of the loop at concrete runs with one other thread.
use target_syslibs.Base.{ℕ, ◌<◌, ◌≡◌, ◌≢◌, refl, inr, false, true, arith}
use target_syslibs.Timer.Race.{
  working, calling, inside, System, set_inited, make_mutex, first_acquire, call_back,
  callback_calls, release, client_checks, client_locks, zeroed, Later, now, then,
}
use target_syslibs.Timer.Race.Safety.{holds, one_at_work}
use target_syslibs.Timer.Race.Deadlock.{callback_deadlock}
use target_syslibs.Timer.Race.Early.{both_at_work}

record Run : Type 0 where
  last : System
  run : Later false 1 zeroed last

-- The thread of the loop is in `ev_loop`.
abbrev looping : Run
looping = record {
  last = _;
  run = then (then (then now (set_inited refl)) (make_mutex refl)) (first_acquire refl refl);
}

-- It waits for events and another thread has the mutex.
abbrev shared_loop : Run
shared_loop = record {
  last = _;
  run =
      then (then (then looping.run (release refl)) (client_checks 0 (omega arith) refl refl))
        (client_locks 0 (omega arith) refl refl (inr refl));
}

-- A callback stops a timer, as `bf_timer_cb` of tests/test_bf_sal.c does.
abbrev stopping : Run
stopping = record {
  last = _;
  run = then (then looping.run (call_back refl)) (callback_calls refl refl);
}

one_at_work_example :
    (holds shared_loop.last.loop ≡ 0)
    × ((j : ℕ) → j < 1 → shared_loop.last.client j ≡ inside → 0 ≡ j)
one_at_work_example = one_at_work shared_loop.run 0 (omega arith) refl

callback_deadlock_example :
    (stopping.last.loop ≡ calling)
    × (stopping.last.locked ≡ 1)
    × ((j : ℕ) → j < 1 → stopping.last.client j ≢ inside)
callback_deadlock_example = callback_deadlock stopping.run refl now

both_at_work_example :
    (s : System) × Later true 1 zeroed s × (s.client 0 ≡ inside) × (s.loop ≡ working)
both_at_work_example = both_at_work 1 (omega arith)
