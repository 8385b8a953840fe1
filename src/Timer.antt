-- ===== src/Timer.antt =====
-- src/bf_sal/linux_usr/bf_sys_timer.c: timers over libev, whose loop and watchers are seen by what is
-- started and stopped on them.
pub mod Life
pub mod Race
pub mod Watch
pub mod Clock
mod Tests
use target_syslibs.Base.{
  ℕ, suc, Bool, true, false, not, ◌||◌, Option, none, some, List, [], ◌∷◌, if◌then◌else◌, ◌==◌,
}
use target_syslibs.Base.Outcome.{Outcome, done, faulted, ◌>>=◌}
use target_syslibs.Sem.Store.{is_in, remove}

-- `bf_sys_timer_status_t`
pub data Status : Type 0 where
  timer_ok invalid_arg no_resources not_inited : Status

-- `bf_sys_timer_t`; 0 is NULL.
pub record Timer : Type 0 where
  pub cb_fn : ℕ
  pub cb_data : ℕ
  pub timer : ℕ

-- A watcher with what `ev_timer_init` stores in it: the times are in milliseconds.
pub record Watcher : Type 0 where
  pub block : ℕ
  pub after : ℕ
  pub repeat : ℕ

-- The static `u` (whether it is set up), the blocks of the watchers, what was written to them, those
-- that are started in the loop, and the number of wake-ups sent to it.
pub record Loop : Type 0 where
  pub inited : Bool
  pub heap : List ℕ
  pub watchers : List Watcher
  pub active : List ℕ
  pub sends : ℕ

-- The results of `bf_sys_malloc`, and of locking and unlocking the mutex of the loop.
pub record Answers : Type 0 where
  pub malloc : Option ℕ
  pub lock : ℕ
  pub unlock : ℕ

unfoldable pub bf_sys_timer_create :
    Answers
    → (start_msecs period_msecs cb_fn cb_data : ℕ) → Option Timer
    → Loop
    → Status × Option Timer × Loop
bf_sys_timer_create a start_msecs period_msecs cb_fn cb_data none u = (invalid_arg, none, u)
bf_sys_timer_create a start_msecs period_msecs cb_fn cb_data (some t) u =
    if cb_fn == 0 then (invalid_arg, some t, u) else elim a.malloc [
      | none ↦ (no_resources, some t, u)
      | some evt ↦ (
        timer_ok,
        some (record { cb_fn = cb_fn; cb_data = cb_data; timer = evt }),
        record u {
          heap = evt ∷ u.heap;
          watchers =
              record { block = evt; after = start_msecs; repeat = period_msecs } ∷ u.watchers;
        },
      )
    ]

-- The common part of start and stop: the tests, the mutex, and a wake-up of the loop.
abbrev under_lock : Answers → Option Timer → (List ℕ → ℕ → List ℕ) → Loop → Status × Loop
under_lock a none change u = (invalid_arg, u)
under_lock a (some t) change u =
    if t.timer == 0
    then (invalid_arg, u)
    else if not u.inited
    then (not_inited, u)
    else if not (a.lock == 0)
    then (no_resources, u)
    else (
      if a.unlock == 0 then timer_ok else no_resources,
      record u { active = change u.active t.timer; sends = suc u.sends },
    )

-- Starting a watcher that is active changes nothing.
abbrev ev_timer_start : List ℕ → ℕ → List ℕ
ev_timer_start active evt = if is_in evt active then active else evt ∷ active

unfoldable pub bf_sys_timer_start : Answers → Option Timer → Loop → Status × Loop
bf_sys_timer_start a t u = under_lock a t ev_timer_start u

unfoldable pub bf_sys_timer_stop : Answers → Option Timer → Loop → Status × Loop
bf_sys_timer_stop a t u = under_lock a t (λ active evt. remove evt active) u

-- The result of the stop is not looked at. A block that is not allocated must not be freed.
unfoldable pub bf_sys_timer_del :
    Answers → Option Timer → Loop → Outcome (Status × Option Timer × Loop)
unfolding bf_sys_timer_stop
bf_sys_timer_del a none u = done (invalid_arg, none, u)
bf_sys_timer_del a (some t) u =
    let u' = (bf_sys_timer_stop a (some t) u).1 in
    if t.timer == 0
    then done (invalid_arg, some t, u)
    else if is_in t.timer u'.heap
    then done (
      timer_ok,
      some (record t { cb_fn = 0; timer = 0 }),
      record u' { heap = remove t.timer u'.heap },
    )
    else faulted
