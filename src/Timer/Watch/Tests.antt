-- ===== src/Timer/Watch/Tests.antt =====
-- The theorems on watchers at a run of one thread.
use target_syslibs.Base.{ℕ, ◌≡◌, refl, inr, false, true, none, arith}
use target_syslibs.Base.Threads.{assign}
use target_syslibs.Timer.Race.{
  working, in_callback, set_inited, make_mutex, first_acquire, release, callback_ends,
}
use target_syslibs.Timer.Watch.{
  starting, deleting, System, loop_moves, expires, calls_back, creates, begins, locks, works, Reach,
  start, later,
}
use target_syslibs.Timer.Watch.Safety.{no_dangling}
use target_syslibs.Timer.Watch.Dangling.{called_back_freed}

record Run : Type 0 where
  last : System
  reach : Reach false false 1 last

-- The loop is set up and thread 0 has started a timer with the watcher 8.
abbrev started : Run
started = record {
  last = _;
  reach =
      later
        (later
          (later
            (later
              (later (later start (loop_moves (set_inited refl) refl (λ e v. refl)))
                (loop_moves (make_mutex refl) refl (λ e v. refl)))
              (creates 0 8 (omega arith) refl refl))
            (begins 0 starting 8 (omega arith) refl refl refl refl))
          (locks 0 starting 8 (omega arith) refl refl refl (inr refl)))
        (works 0 starting 8 (omega arith) refl refl);
}

not_working :
    (v : ℕ) → in_callback ≡ working → assign (assign (λ _. false) 8 true) 8 false v ≡ false
not_working v e = absurd (ground arith)

nothing_due : (v : ℕ) → assign (assign (λ _. false) 8 true) 8 false v ≡ false
nothing_due v = ground arith

-- The timer has been called back once.
abbrev fired : Run
fired = record {
  last = _;
  reach =
      later
        (later
          (later (later started.reach (loop_moves (first_acquire refl refl) refl (λ e v. refl)))
            (expires 8 false refl refl))
          (calls_back 8 refl refl))
        (loop_moves (callback_ends refl) refl (λ e v. not_working v e));
}

-- Thread 0 deletes it while the loop waits.
abbrev stopped : Run
stopped = record {
  last = _;
  reach =
      later
        (later
          (later (later fired.reach (loop_moves (release refl) refl (λ e v. nothing_due v)))
            (begins 0 deleting 8 (omega arith) refl refl refl refl))
          (locks 0 deleting 8 (omega arith) refl refl refl (inr refl)))
        (works 0 deleting 8 (omega arith) refl refl);
}

no_dangling_example : (stopped.last.active 8 ≡ false) × (stopped.last.pending 8 ≡ false)
no_dangling_example = no_dangling stopped.reach 8 (inr (0, refl))

called_back_freed_example :
    (s : System) × Reach false true 1 s
    × (s.base.loop ≡ working)
    × (s.pending 8 ≡ true)
    × (s.owner 8 ≡ none)
called_back_freed_example = called_back_freed 1 8 (omega arith)
