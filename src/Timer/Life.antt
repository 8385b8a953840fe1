-- ===== src/Timer/Life.antt =====
-- The life of a timer: created, started, stopped by its deletion.
use target_syslibs.Base.{ℕ, suc, ◌≡◌, ◌≢◌, refl, true, false, Option, some, ◌∷◌, eq→==, ne→not-==}
use target_syslibs.Base.Outcome.{done}
use target_syslibs.Sem.Store.{is_in, remove}
use target_syslibs.Timer.{
  Status, timer_ok, no_resources, Timer, Loop, Answers, bf_sys_timer_create, bf_sys_timer_start,
  bf_sys_timer_stop, bf_sys_timer_del,
}

-- The results of create, and of start after it.
abbrev pub made :
    Answers
    → (start_msecs period_msecs cb_fn cb_data : ℕ) → Timer
    → Loop
    → Status × Option Timer × Loop
made a start_msecs period_msecs cb_fn cb_data t u =
    bf_sys_timer_create a start_msecs period_msecs cb_fn cb_data (some t) u

abbrev pub running :
    Answers → (start_msecs period_msecs cb_fn cb_data : ℕ) → Timer → Loop → Status × Loop
running a start_msecs period_msecs cb_fn cb_data t u =
    let m = made a start_msecs period_msecs cb_fn cb_data t u in bf_sys_timer_start a m.1 m.2

module _ (a : Answers) (start_msecs period_msecs cb_fn cb_data evt : ℕ) (t : Timer) (u : Loop)
    (callback : cb_fn ≢ 0) (block : a.malloc ≡ some evt) (not_null : evt ≢ 0)
    (set_up : u.inited ≡ true) (idle : is_in evt u.active ≡ false) where
  -- For a callback, a new block, a loop that is set up and a mutex that can be locked and unlocked:
  -- after create and start the new watcher is active in the loop, and the deletion then stops it and
  -- frees its block, so that the heap and the active watchers are as before.
  pub del-start :
      a.lock ≡ 0
      → a.unlock ≡ 0
      → ((running a start_msecs period_msecs cb_fn cb_data t u).0 ≡ timer_ok)
        × ((running a start_msecs period_msecs cb_fn cb_data t u).1.active ≡ evt ∷ u.active)
        × (bf_sys_timer_del a
              (made a start_msecs period_msecs cb_fn cb_data t u).1
              (running a start_msecs period_msecs cb_fn cb_data t u).1
            ≡ done (
              timer_ok,
              some (record { cb_fn = 0; cb_data = cb_data; timer = 0 }),
              record (running a start_msecs period_msecs cb_fn cb_data t u).1 {
                heap = u.heap;
                active = u.active;
                sends = suc (suc u.sends);
              },
            ))
  unfolding bf_sys_timer_create bf_sys_timer_start bf_sys_timer_del
  del-start locks unlocks =
      rw
        (
          ne→not-== cb_fn 0 callback,
          block,
          ne→not-== evt 0 not_null,
          set_up,
          locks,
          unlocks,
          idle,
          eq→== evt evt refl,
        )
        (refl, refl, refl)

-- If the mutex cannot be locked, the deletion of a timer in a loop that is set up still frees the
-- watcher and returns success, with the watcher started or not as it was before.
del-unstopped :
    (a : Answers) (t : Timer) (u : Loop)
    → t.timer ≢ 0
    → is_in t.timer u.heap ≡ true
    → u.inited ≡ true
    → a.lock ≢ 0
    → (bf_sys_timer_stop a (some t) u ≡ (no_resources, u))
      × (bf_sys_timer_del a (some t) u
          ≡ done (
            timer_ok,
            some (record t { cb_fn = 0; timer = 0 }),
            record u { heap = remove t.timer u.heap },
          ))
unfolding bf_sys_timer_stop bf_sys_timer_del
del-unstopped a t u not_null there set_up fails =
    rw (ne→not-== t.timer 0 not_null, set_up, ne→not-== a.lock 0 fails, there) (refl, refl)
