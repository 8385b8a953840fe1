-- ===== src/Sem/RwLock/Drained.antt =====
-- The calls on a lock that have begun come to their end, if no wait fails: each of their steps leaves
-- less to do, and as long as one has not returned some thread can take such a step.
use target_syslibs.Base.{
  ℕ, zero, suc, ◌+◌, ◌*◌, ◌^◌, ◌≤◌, ◌<◌, ◌≡◌, ◌⊎◌, inl, inr, refl, false, dec_lt, arith,
}
use target_syslibs.Base.Threads.{assign, tally, tally-pos, le-tally, tally_mono}
use target_syslibs.Sem.RwLock.{
  Thread, idle, reading, writing, r_asleep, r_woken, w_asleep, w_woken, rdunlock_part,
  wrunlock_part, System, Step, rd_resume, wr_resume, rd_unlock, wr_unlock, start_state, Reach,
  later,
}
use target_syslibs.Sem.RwLock.Count.{
  is_reading, is_writing, is_r_asleep, is_r_woken, is_w_asleep, is_w_woken,
}
use target_syslibs.Sem.RwLock.Moves.{Reach-Inv}
use target_syslibs.Sem.RwLock.Wakeup.{no_lost_wakeup}
use target_syslibs.Sem.RwLock.Run.{woken}
use target_syslibs.Sem.RwLock.Progress.{
  IsOwn, Drain, stop, go, weight, work, tally-weight, own-work, Drain-work,
}

-- A step that goes on with a call.
pub record Onward (n : ℕ) (s : System) : Type 0 where
  pub next : System
  pub step : Step false n s next
  pub own : IsOwn step

-- The threads that need no signal.
abbrev is_up : Thread → ℕ
is_up reading = 1
is_up writing = 1
is_up r_woken = 1
is_up w_woken = 1
is_up _ = 0

Onward-at :
    {n : ℕ} {s : System} (i : ℕ) → i < n → (t : Thread) → s.pc i ≡ t → 0 < is_up t → Onward n s
Onward-at {n} {s} i h reading e up =
    let (pc', w) = woken n (assign s.pc i idle) (rdunlock_part s.lock).0 in
    record { next = _; step = rd_unlock i pc' h e w; own = tt }
Onward-at {n} {s} i h writing e up =
    let (pc', w) = woken n (assign s.pc i idle) (wrunlock_part s.lock).0 in
    record { next = _; step = wr_unlock i pc' h e w; own = tt }
Onward-at i h r_woken e up = record {
  next = _;
  step = rd_resume i false h e (λ f. absurd (ground arith));
  own = tt;
}
Onward-at i h w_woken e up = record {
  next = _;
  step = wr_resume i false h e (λ f. absurd (ground arith));
  own = tt;
}
Onward-at i h idle e up = absurd (omega arith)
Onward-at i h r_asleep e up = absurd (omega arith)
Onward-at i h w_asleep e up = absurd (omega arith)

down_of : (m : ℕ) (t : Thread) → 0 < weight m t → is_up t ≡ 0 → (t ≡ r_asleep) ⊎ (t ≡ w_asleep)
down_of m t h d = ground arith

module _ {n : ℕ} (few : n < 2 ^ 31) {s : System} (r : Reach false n s) where
  -- Somebody can go on as long as somebody is inside a call.
  onward : 0 < work n s.pc → Onward n s
  onward busy = elim (dec_lt 0 (tally is_up n s.pc)) [
    | yes up ↦ let (j, hj, pos) = tally-pos is_up n s.pc up in Onward-at j hj (s.pc j) refl pos
    | no down ↦
        let (i, hi, pos) = tally-pos (weight n) n s.pc busy in
        let (j, hj, e, _) =
          no_lost_wakeup few r i hi
            (down_of n (s.pc i) pos (omega (arith, le-tally is_up n s.pc i hi)))
            (λ k hk e. absurd (omega (arith, rw e at (le-tally is_up n s.pc k hk))))
            (λ k hk e. absurd (omega (arith, rw e at (le-tally is_up n s.pc k hk)))) in
        Onward-at j hj w_woken e (omega arith)
  ]

  no_count :
      (w : Thread → ℕ) → ((t : Thread) → w t ≤ weight n t) → work n s.pc ≡ 0 → tally w n s.pc ≡ 0
  no_count w small done = omega (arith, tally_mono w (weight n) small n s.pc)

  -- With nothing left to do the lock is as it was at the start.
  released : work n s.pc ≡ 0 → s.lock ≡ start_state.lock
  released done = ground (
    arith,
    Reach-Inv few r,
    no_count is_reading (λ t. ground arith) done,
    no_count is_writing (λ t. ground arith) done,
    no_count is_r_asleep (λ t. ground arith) done,
    no_count is_r_woken (λ t. ground arith) done,
    no_count is_w_asleep (λ t. ground arith) done,
    no_count is_w_woken (λ t. ground arith) done,
  )

Drain-Reach : {n k : ℕ} {s t : System} → Reach false n s → Drain n k s t → Reach false n t
Drain-Reach r stop = r
Drain-Reach r (go st own rest) = Drain-Reach (later r st) rest

idle_of : (m : ℕ) (t : Thread) → weight m t ≡ 0 → t ≡ idle
idle_of m t h = ground arith

-- No call is under way and the lock is free.
pub record Finished (n : ℕ) (s : System) : Type 0 where
  pub all_idle : (i : ℕ) → i < n → s.pc i ≡ idle
  pub free : s.lock ≡ start_state.lock

finished : {n : ℕ} {s : System} → n < 2 ^ 31 → Reach false n s → work n s.pc ≡ 0 → Finished n s
finished {n} {s} few r done = record {
  all_idle = λ i h. idle_of n (s.pc i) (omega (arith, le-tally (weight n) n s.pc i h));
  free = released few r done;
}

-- From any state, n threads go on with their calls for at most n * (n + 3) steps. New calls and
-- spurious wake-ups do not count, and no wait fails.
Drain-bounded : {n k : ℕ} {s t : System} → Drain n k s t → k ≤ n * (n + 3)
Drain-bounded {n} {s} d = omega (arith, Drain-work d, tally-weight n n s.pc)

-- With fewer than 2^31 threads and no failing wait: in every reachable state either all threads are
-- idle and the counters are 0 as after the init, or some thread can go on with its call without a
-- spurious wake-up.
Finished-or_Onward : {n : ℕ} {s : System} → n < 2 ^ 31 → Reach false n s → Finished n s ⊎ Onward n s
Finished-or_Onward {n} {s} few r = elim (dec_lt 0 (work n s.pc)) [
  | yes busy ↦ inr (onward few r busy)
  | no h ↦ inl (finished few r (omega arith))
]

drains_within :
    {n : ℕ}
    → n < 2 ^ 31
    → (fuel : ℕ) {s : System} → Reach false n s
    → work n s.pc ≤ fuel
    → (k : ℕ) × (t : System) × Drain n k s t × Finished n t
drains_within few zero r h = (0, _, stop, finished few r (omega arith))
drains_within few (suc fuel) r h = elim (Finished-or_Onward few r) [
  | inl f ↦ (0, _, stop, f)
  | inr o ↦
      let (k, t, d, f) =
        drains_within few fuel (later r o.step) (omega (arith, own-work o.step o.own)) in
      (suc k, t, go o.step o.own d, f)
]

-- With fewer than 2^31 threads and no failing wait: from every reachable state at most n * (n + 3)
-- own steps lead to a state where all threads are idle and the counters are 0, and every run of own
-- steps that cannot go on ends in such a state.
pub drains :
    {n : ℕ} {s : System}
    → n < 2 ^ 31
    → Reach false n s
    → ((k : ℕ) × (t : System) × (k ≤ n * (n + 3)) × Drain n k s t × Finished n t)
      × ((k : ℕ) (t : System) → Drain n k s t → ¬ Onward n t → Finished n t)
drains {n} {s} few r = (within, λ k t d stuck. ends t (Drain-Reach r d) stuck)
  where
    within : (k : ℕ) × (t : System) × (k ≤ n * (n + 3)) × Drain n k s t × Finished n t
    within =
        let (k, t, d, f) = drains_within few (work n s.pc) r (omega arith) in
        (k, t, Drain-bounded d, d, f)

    ends : (t : System) → Reach false n t → ¬ Onward n t → Finished n t
    ends t rt stuck = elim (Finished-or_Onward few rt) [ inl f ↦ f | inr o ↦ absurd (stuck o) ]
