-- ===== src/Timer/Watch/Moves.antt =====
-- Each change of the watchers keeps the invariant.
use target_syslibs.Base.{
  ℕ, ◌<◌, ◌≡◌, ◌≢◌, ◌⊎◌, inl, inr, sym, ◌∙◌, Bool, true, false, Bool-cases, none, some, ℕ_discrete,
  arith,
}
use target_syslibs.Base.Threads.{assign, assign_other, le-tally}
use target_syslibs.Timer.Race.{
  LoopPc, at_start, flagged, mutex_made, working, in_callback, polling, calling, calling_in, ended,
  outside, checked, inside, no_loop, set_inited, make_mutex, first_acquire, call_back,
  callback_ends, callback_calls, callback_locks, callback_unlocks, release, acquire, loop_ends,
  client_checks, client_fails, client_locks, client_unlocks, zeroed,
}
use target_syslibs.Timer.Race
use target_syslibs.Timer.Race.Safety.{holds, Inv, Step-Inv, is_inside}
use target_syslibs.Timer.Watch.{Task, no_task, frees, System}
use target_syslibs.Timer.Watch.Tasks.{
  Fits, Fits-owner, Fits-active, Fits-set, Fits-stop, Fits-clear, Fits-expire, with_task, not_mine,
}
use target_syslibs.Timer.Watch.LoopPlaces.{begun, released, still_unset}

pub record WatchInv (n : ℕ) (s : System) : Type 0 where
  pub mutex : Inv n s.base
  pub active_live : (w : ℕ) → s.active w ≡ true → s.owner w ≢ none
  pub pending_live : (w : ℕ) → s.pending w ≡ true → s.owner w ≢ none
  pub calm : holds s.base.loop ≡ 0 → (w : ℕ) → s.pending w ≡ false
  pub unset : s.base.inited ≡ false → (w : ℕ) → s.active w ≡ false
  pub not_begun : s.base.inited ≡ false → begun s.base.loop ≡ 0
  pub tasks : (i : ℕ) → Fits s.base.inited s.owner s.active s.pending i (s.task i)

-- Where the values of a map are after one of them has changed.
module _ (f : ℕ → Bool) (w v : ℕ) where
  was_true : assign f w false v ≡ true → f v ≡ true
  was_true e = ground arith

  was_false : f v ≡ false → assign f w false v ≡ false
  was_false e = ground arith

module _ {n : ℕ} {s : System} (inv : WatchInv n s) where
  -- While a thread is inside, the loop has released the mutex.
  inside_calm : (i : ℕ) → i < n → s.base.client i ≡ inside → holds s.base.loop ≡ 0
  inside_calm i hi e = omega (
    arith,
    inv.mutex.exclusive,
    inv.mutex.binary,
    rw e at (le-tally is_inside n s.base.client i hi),
  )

  working_set : begun s.base.loop ≡ 1 → s.base.inited ≡ true
  working_set e = elim (Bool-cases s.base.inited) [
    | inl t ↦ t
    | inr f ↦ absurd (omega (arith, inv.not_begun f))
  ]

  stays_set :
      {b : Race.System} → Race.Step false n s.base b → s.base.inited ≡ true → b.inited ≡ true
  stays_set {b} st up = elim (Bool-cases b.inited) [
    | inl t ↦ t
    | inr f ↦ let was = (still_unset inv.not_begun st f).0 in absurd (ground arith)
  ]

  pub loop_moves-WatchInv :
      {b : Race.System}
      → Race.Step false n s.base b
      → (holds b.loop ≡ 0 → s.base.loop ≡ working → (w : ℕ) → s.pending w ≡ false)
      → WatchInv n (record s { base = b })
  loop_moves-WatchInv {b} st rel = record {
    mutex = Step-Inv inv.mutex st;
    active_live = inv.active_live;
    pending_live = inv.pending_live;
    calm = λ h w. elim (released st h) [ inl z ↦ inv.calm z w | inr e ↦ rel h e w ];
    unset = λ h. inv.unset (still_unset inv.not_begun st h).0;
    not_begun = λ h. (still_unset inv.not_begun st h).1;
    tasks = λ i.
        Fits-set s.base.inited s.owner s.active s.pending i 0 (s.task i) b.inited (stays_set st)
          (inv.tasks i);
  }

  pub expires-WatchInv :
      (w : ℕ)
      → s.base.loop ≡ working
      → s.active w ≡ true
      → WatchInv n (record s { pending = assign s.pending w true })
  expires-WatchInv w e act = record {
    mutex = inv.mutex;
    active_live = inv.active_live;
    pending_live = λ v h. elim (ℕ_discrete w v) [
      | yes same ↦ λ free. inv.active_live w act (rw same free)
      | no d ↦ inv.pending_live v (sym (assign_other s.pending w v true d) ∙ h)
    ];
    calm = λ h. absurd (ground arith);
    unset = inv.unset;
    not_begun = inv.not_begun;
    tasks =
        λ i. Fits-expire s.base.inited s.owner s.active s.pending i w act (s.task i) (inv.tasks i);
  }

  pub stop-WatchInv : (w : ℕ) → WatchInv n (record s { active = assign s.active w false })
  stop-WatchInv w = record {
    mutex = inv.mutex;
    active_live = λ v h. inv.active_live v (was_true s.active w v h);
    pending_live = inv.pending_live;
    calm = inv.calm;
    unset = λ h v. was_false s.active w v (inv.unset h v);
    not_begun = inv.not_begun;
    tasks = λ i. Fits-stop s.base.inited s.owner s.active s.pending i w (s.task i) (inv.tasks i);
  }

  pub clear-WatchInv : (w : ℕ) → WatchInv n (record s { pending = assign s.pending w false })
  clear-WatchInv w = record {
    mutex = inv.mutex;
    active_live = inv.active_live;
    pending_live = λ v h. inv.pending_live v (was_true s.pending w v h);
    calm = λ h v. was_false s.pending w v (inv.calm h v);
    unset = inv.unset;
    not_begun = inv.not_begun;
    tasks = λ i. Fits-clear s.base.inited s.owner s.active s.pending i w (s.task i) (inv.tasks i);
  }

  pub set_task-WatchInv :
      (i : ℕ) (t : Task)
      → Fits s.base.inited s.owner s.active s.pending i t
      → WatchInv n (record s { task = assign s.task i t })
  set_task-WatchInv i t fits = record {
    mutex = inv.mutex;
    active_live = inv.active_live;
    pending_live = inv.pending_live;
    calm = inv.calm;
    unset = inv.unset;
    not_begun = inv.not_begun;
    tasks = with_task s.base.inited s.owner s.active s.pending s.task i t fits (λ j d. inv.tasks j);
  }

  pub frees-WatchInv :
      (i w : ℕ)
      → s.task i ≡ frees w
      → WatchInv n (record s { owner = assign s.owner w none; task = assign s.task i no_task })
  frees-WatchInv i w e = record {
    mutex = inv.mutex;
    active_live = λ v h.
        rw (assign_other s.owner w v none (unused_by s.active v (fits.1) h)) (inv.active_live v h);
    pending_live = λ v h.
        rw (assign_other s.owner w v none (unused_by s.pending v (fits.2) h))
          (inv.pending_live v h);
    calm = inv.calm;
    unset = inv.unset;
    not_begun = inv.not_begun;
    tasks =
        with_task s.base.inited (assign s.owner w none) s.active s.pending s.task i no_task tt
          (λ j d.
            Fits-owner s.base.inited s.owner s.active s.pending j w
              (not_mine s.owner i j w fits.0 d) none (s.task j) (inv.tasks j));
  }
    where
      fits : (s.owner w ≡ some i) × (s.active w ≡ false) × (s.pending w ≡ false)
      fits = rw e at (inv.tasks i)

      unused_by : (f : ℕ → Bool) (v : ℕ) → f w ≡ false → f v ≡ true → w ≢ v
      unused_by f v idle busy same = absurd (ground arith)

  pub creates-WatchInv :
      (i w : ℕ) → s.owner w ≡ none → WatchInv n (record s { owner = assign s.owner w (some i) })
  creates-WatchInv i w free = record {
    mutex = inv.mutex;
    active_live = λ v h. given v (inv.active_live v h);
    pending_live = λ v h. given v (inv.pending_live v h);
    calm = inv.calm;
    unset = inv.unset;
    not_begun = inv.not_begun;
    tasks = λ j.
        Fits-owner s.base.inited s.owner s.active s.pending j w (λ e. absurd (ground arith))
          (some i) (s.task j) (inv.tasks j);
  }
    where
      given : (v : ℕ) → s.owner v ≢ none → assign s.owner w (some i) v ≢ none
      given v live gone = ground arith

  pub starts-WatchInv :
      (i w : ℕ)
      → s.owner w ≡ some i
      → s.base.inited ≡ true
      → ((j : ℕ) → (i ≢ j) ⊎ (s.task j ≡ no_task))
      → WatchInv n (record s { active = assign s.active w true })
  starts-WatchInv i w own up others = record {
    mutex = inv.mutex;
    active_live = λ v h. elim (ℕ_discrete w v) [
      | yes same ↦ λ free. absurd (ground arith)
      | no d ↦ inv.active_live v (sym (assign_other s.active w v true d) ∙ h)
    ];
    pending_live = inv.pending_live;
    calm = inv.calm;
    unset = λ h. absurd (ground arith);
    not_begun = inv.not_begun;
    tasks = λ j. elim (others j) [
      | inl d ↦
          Fits-active s.base.inited s.owner s.active s.pending j w (not_mine s.owner i j w own d)
            true (s.task j) (inv.tasks j)
      | inr e ↦ rw e tt
    ];
  }
