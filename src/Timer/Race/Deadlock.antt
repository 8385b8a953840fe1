-- ===== src/Timer/Race/Deadlock.antt =====
-- A callback of a timer that starts, stops or deletes a timer: the thread of the loop runs it with the
-- mutex locked, and the mutex is not recursive.
use target_syslibs.Base.{ℕ, ◌<◌, ◌≡◌, ◌≢◌, false, arith}
use target_syslibs.Base.Threads.{tally, le-tally}
use target_syslibs.Timer.Race.{
  calling, outside, checked, inside, System, Step, no_loop, set_inited, make_mutex, first_acquire,
  call_back, callback_ends, callback_calls, callback_locks, callback_unlocks, release, acquire,
  loop_ends, client_checks, client_fails, client_locks, client_unlocks, zeroed, Later, now, then,
}
use target_syslibs.Timer.Race.Safety.{is_inside, moved, Inv, zeroed-Inv, Later-Inv}

-- A callback waits for the mutex that its own thread holds.
record Stuck (n : ℕ) (s : System) : Type 0 where
  waits : s.loop ≡ calling
  locked : s.locked ≡ 1
  nobody : tally is_inside n s.client ≡ 0

module _ {n : ℕ} where
  Step-Stuck : {s t : System} → Stuck n s → Step false n s t → Stuck n t
  Step-Stuck stuck (no_loop e) = absurd (ground arith)
  Step-Stuck stuck (set_inited e) = absurd (ground arith)
  Step-Stuck stuck (make_mutex e) = absurd (ground arith)
  Step-Stuck stuck (first_acquire e f) = absurd (ground arith)
  Step-Stuck stuck (call_back e) = absurd (ground arith)
  Step-Stuck stuck (callback_ends e) = absurd (ground arith)
  Step-Stuck stuck (callback_calls e f) = absurd (ground arith)
  Step-Stuck stuck (callback_locks e f) = absurd (ground arith)
  Step-Stuck stuck (callback_unlocks e) = absurd (ground arith)
  Step-Stuck stuck (release e) = absurd (ground arith)
  Step-Stuck stuck (acquire e f) = absurd (ground arith)
  Step-Stuck stuck (loop_ends e) = absurd (ground arith)
  Step-Stuck {s} stuck (client_checks i h e f) =
      let sh = moved s.client i outside checked h e in ground arith
  Step-Stuck {s} stuck (client_fails i h e) =
      let sh = moved s.client i checked outside h e in ground arith
  Step-Stuck stuck (client_locks i h e f g) = absurd (ground arith)
  Step-Stuck {s} stuck (client_unlocks i h e) =
      absurd (omega (arith, stuck.nobody, rw e at (le-tally is_inside n s.client i h)))

  Later-Stuck : {s t : System} → Stuck n s → Later false n s t → Stuck n t
  Later-Stuck stuck now = stuck
  Later-Stuck stuck (then r st) = Step-Stuck (Later-Stuck stuck r) st

  -- If no thread locks the mutex before it is initialised: once a callback of a timer calls
  -- `bf_sys_timer_start`, `bf_sys_timer_stop` or `bf_sys_timer_del`, the thread of the loop waits for
  -- ever in that call, and no other thread is ever inside such a call with the mutex.
  pub callback_deadlock :
      {s t : System}
      → Later false n zeroed s
      → s.loop ≡ calling
      → Later false n s t
      → (t.loop ≡ calling) × (t.locked ≡ 1) × ((j : ℕ) → j < n → t.client j ≢ inside)
  callback_deadlock {s} {t} r e l = (
    stuck.waits,
    stuck.locked,
    λ j h f. absurd (omega (arith, stuck.nobody, rw f at (le-tally is_inside n t.client j h))),
  )
    where
      inv : Inv n s
      inv = Later-Inv zeroed-Inv r

      stuck : Stuck n t
      stuck =
          Later-Stuck
            (record {
              waits = e;
              locked = omega (arith, inv.binary, rw e at inv.exclusive);
              nobody = omega (arith, inv.binary, rw e at inv.exclusive);
            })
            l
