-- ===== src/Timer/Watch/Safety.antt =====
-- The loop only touches watchers that are allocated.
use target_syslibs.Base.{
  ℕ, ◌<◌, ◌≡◌, ◌≢◌, ◌⊎◌, inl, inr, refl, sym, Bool, true, false, none, some, ℕ_discrete, arith,
}
use target_syslibs.Base.Threads.{assign, assign_same}
use target_syslibs.Timer.Race.{
  LoopPc, at_start, flagged, mutex_made, working, in_callback, polling, calling, calling_in, ended,
  outside, checked, inside, no_loop, set_inited, make_mutex, first_acquire, call_back,
  callback_ends, callback_calls, callback_locks, callback_unlocks, release, acquire, loop_ends,
  client_checks, client_fails, client_locks, client_unlocks, zeroed,
}
use target_syslibs.Timer.Race
use target_syslibs.Timer.Race.Safety.{zeroed-Inv}
use target_syslibs.Timer.Watch.{
  Call, starting, stopping, deleting, Task, no_task, runs, frees, System, active_after,
  pending_after, rest_of, Step, loop_moves, expires, calls_back, creates, begins, deletes_early,
  refused, locks, works, gives_back, unused, Reach, start, later,
}
use target_syslibs.Timer.Watch.Tasks.{Fits}
use target_syslibs.Timer.Watch.LoopPlaces.{begun-holds}
use target_syslibs.Timer.Watch.Moves.{
  WatchInv, loop_moves-WatchInv, expires-WatchInv, stop-WatchInv, clear-WatchInv, set_task-WatchInv,
  frees-WatchInv, creates-WatchInv, starts-WatchInv,
}

module _ {n : ℕ} where
  -- A thread goes on to another task, and the mutex may change hands with it.
  task-WatchInv :
      {s : System} {b : Race.System} (inv : WatchInv n s) (i : ℕ) (t : Task)
      → Race.Step false n s.base b
      → b.loop ≡ s.base.loop
      → Fits b.inited s.owner s.active s.pending i t
      → WatchInv n (record s { base = b; task = assign s.task i t })
  task-WatchInv inv i t st same fits =
      set_task-WatchInv (loop_moves-WatchInv inv st (λ h e. absurd (ground arith))) i t fits

  works-WatchInv :
      {s : System} (i : ℕ) (c : Call) (w : ℕ)
      → WatchInv n s
      → i < n
      → s.task i ≡ runs c w
      → s.base.client i ≡ inside
      → WatchInv n (record s {
        base = record s.base { locked = 0; client = assign s.base.client i outside };
        active = active_after c w s.active;
        pending = pending_after c w s.pending;
        task = assign s.task i (rest_of c w);
      })
  works-WatchInv {s} i starting w inv hi e ins =
      starts-WatchInv (task-WatchInv inv i no_task (client_unlocks i hi ins) refl tt) i w fits.0
        fits.1 others
    where
      fits : (s.owner w ≡ some i) × (s.base.inited ≡ true)
      fits = rw e at (inv.tasks i)

      others : (j : ℕ) → (i ≢ j) ⊎ (assign s.task i no_task j ≡ no_task)
      others j = elim (ℕ_discrete i j) [
        | yes same ↦ inr (rw (sym same) (assign_same s.task i no_task))
        | no d ↦ inl d
      ]
  works-WatchInv {s} i stopping w inv hi e ins =
      task-WatchInv (clear-WatchInv (stop-WatchInv inv w) w) i no_task (client_unlocks i hi ins)
        refl tt
  works-WatchInv {s} i deleting w inv hi e ins =
      task-WatchInv (clear-WatchInv (stop-WatchInv inv w) w) i (frees w) (client_unlocks i hi ins)
        refl (fits.0, assign_same s.active w false, assign_same s.pending w false)
    where
      fits : (s.owner w ≡ some i) × (s.base.inited ≡ true)
      fits = rw e at (inv.tasks i)

  Step-WatchInv : {s t : System} → WatchInv n s → Step false false n s t → WatchInv n t
  Step-WatchInv inv (loop_moves st same rel) = loop_moves-WatchInv inv st (λ h. rel)
  Step-WatchInv inv (expires w true e act) = stop-WatchInv (expires-WatchInv inv w e act) w
  Step-WatchInv inv (expires w false e act) = expires-WatchInv inv w e act
  Step-WatchInv {s} inv (calls_back w e due) =
      loop_moves-WatchInv (clear-WatchInv inv w) (call_back e) (λ h e. absurd (ground arith))
  Step-WatchInv inv (creates i w hi e free) = creates-WatchInv inv i w free
  Step-WatchInv inv (begins i c w hi e own out up) =
      task-WatchInv inv i (runs c w) (client_checks i hi out up) refl (own, up)
  Step-WatchInv inv (deletes_early i w hi e own down) =
      set_task-WatchInv inv i (frees w)
        (own, inv.unset down w, inv.calm (begun-holds _ (inv.not_begun down)) w)
  Step-WatchInv inv (refused i c w f hi e ch) = absurd (ground arith)
  Step-WatchInv inv (locks i c w hi e ch free set_up) =
      loop_moves-WatchInv inv (client_locks i hi ch free set_up)
        (λ h e. absurd (ground (arith, inv.mutex.exclusive)))
  Step-WatchInv inv (works i c w hi e ins) = works-WatchInv i c w inv hi e ins
  Step-WatchInv inv (gives_back i w hi e) = frees-WatchInv inv i w e

  unused-WatchInv : WatchInv n unused
  unused-WatchInv = record {
    mutex = zeroed-Inv;
    active_live = λ w h. absurd (ground arith);
    pending_live = λ w h. absurd (ground arith);
    calm = λ h w. refl;
    unset = λ h w. refl;
    not_begun = λ h. refl;
    tasks = λ i. tt;
  }

  Reach-WatchInv : {s : System} → Reach false false n s → WatchInv n s
  Reach-WatchInv start = unused-WatchInv
  Reach-WatchInv (later r st) = Step-WatchInv (Reach-WatchInv r) st

  -- If no thread locks the mutex before `bf_sys_timer_init` has initialised it, if it can always be
  -- locked, and if each thread uses its own timers, a block that is not allocated, or that
  -- `bf_sys_timer_del` is about to free, is no watcher that is active in the loop or has expired; so no
  -- timer is called back after it is deleted.
  pub no_dangling :
      {s : System}
      → Reach false false n s
      → (w : ℕ) → (s.owner w ≡ none) ⊎ ((i : ℕ) × (s.task i ≡ frees w))
      → (s.active w ≡ false) × (s.pending w ≡ false)
  no_dangling {s} r w (inl free) =
      (not_true (λ h. inv.active_live w h free), not_true (λ h. inv.pending_live w h free))
    where
      inv : WatchInv n s
      inv = Reach-WatchInv r

      not_true : {b : Bool} → b ≢ true → b ≡ false
      not_true d = ground arith
  no_dangling {s} r w (inr (i, e)) = (fits.1, fits.2)
    where
      fits : (s.owner w ≡ some i) × (s.active w ≡ false) × (s.pending w ≡ false)
      fits = rw e at ((Reach-WatchInv r).tasks i)
