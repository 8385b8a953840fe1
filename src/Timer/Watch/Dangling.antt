-- ===== src/Timer/Watch/Dangling.antt =====
-- `bf_sys_timer_del` where the mutex refuses to be locked.
use target_syslibs.Base.{ℕ, ◌<◌, ◌≡◌, refl, inr, true, false, none, some}
use target_syslibs.Base.Threads.{assign, assign_same}
use target_syslibs.Timer.Race.{working, set_inited, make_mutex, first_acquire}
use target_syslibs.Timer.Watch.{
  starting, deleting, System, loop_moves, expires, creates, begins, refused, locks, works,
  gives_back, unused, Reach, start, later,
}

-- If the mutex may refuse to be locked, then with one thread or more a state is reachable in which a
-- watcher has expired and the thread of the loop is about to call it back, while its block is freed:
-- `bf_sys_timer_del` frees it although it could not be stopped.
pub called_back_freed :
    (n w : ℕ)
    → 0 < n
    → (s : System) × Reach false true n s
      × (s.base.loop ≡ working)
      × (s.pending w ≡ true)
      × (s.owner w ≡ none)
called_back_freed n w one =
    let made =
      later (later start (loop_moves (set_inited refl) refl (λ e v. refl)))
        (loop_moves (make_mutex refl) refl (λ e v. refl)) in
    let started =
      later
        (later
          (later (later made (creates 0 w one refl refl))
            (begins 0 starting w one refl (assign_same unused.owner w _) refl refl))
          (locks 0 starting w one refl refl refl (inr refl)))
        (works 0 starting w one refl refl) in
    let deleted =
      later
        (later
          (later started (begins 0 deleting w one refl (assign_same unused.owner w _) refl refl))
          (refused 0 deleting w refl one refl refl))
        (gives_back 0 w one refl) in
    let working_on = later deleted (loop_moves (first_acquire refl refl) refl (λ e v. refl)) in
    (
      _,
      later working_on (expires w true refl (assign_same unused.active w _)),
      refl,
      (assign_same unused.pending w _),
      (assign_same (assign unused.owner w (some 0)) w _),
    )
