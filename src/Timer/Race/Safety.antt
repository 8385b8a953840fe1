-- ===== src/Timer/Race/Safety.antt =====
-- Who works on the loop while the mutex is used as the code means it.
use target_syslibs.Base.{ℕ, ◌+◌, ◌≤◌, ◌<◌, ◌≡◌, inl, inr, refl, false, ℕ_discrete, arith}
use target_syslibs.Base.Threads.{assign, tally, tally-assign, tally-zero, le-tally, pair-le-tally}
use target_syslibs.Timer.Race.{
  LoopPc, at_start, flagged, working, in_callback, calling, calling_in, Client, outside, checked,
  inside, System, Step, no_loop, set_inited, make_mutex, first_acquire, call_back, callback_ends,
  callback_calls, callback_locks, callback_unlocks, release, acquire, loop_ends, client_checks,
  client_fails, client_locks, client_unlocks, zeroed, Later, now, then,
}

-- The thread of the loop is in `ev_loop` and has not released the mutex.
abbrev pub holds : LoopPc → ℕ
holds working = 1
holds in_callback = 1
holds calling = 1
holds calling_in = 1
holds _ = 0

abbrev in_call : LoopPc → ℕ
in_call calling_in = 1
in_call _ = 0

abbrev unready : LoopPc → ℕ
unready at_start = 1
unready flagged = 1
unready _ = 0

abbrev pub is_inside : Client → ℕ
is_inside inside = 1
is_inside _ = 0

pub record Inv (n : ℕ) (s : System) : Type 0 where
  pub exclusive : holds s.loop + tally is_inside n s.client ≡ s.locked
  pub binary : s.locked ≤ 1
  alone : in_call s.loop ≡ 0
  early_free : unready s.loop ≡ 1 → s.locked ≡ 0

module _ {n : ℕ} where
  pub moved :
      (client : ℕ → Client) (i : ℕ) (a b : Client)
      → i < n
      → client i ≡ a
      → tally is_inside n (assign client i b) + is_inside a ≡ tally is_inside n client + is_inside b
  moved client i a b h e = rw e at (tally-assign is_inside n client i b h)

  pub Step-Inv : {s t : System} → Inv n s → Step false n s t → Inv n t
  Step-Inv inv (no_loop e) = ground arith
  Step-Inv inv (set_inited e) = ground arith
  Step-Inv inv (make_mutex e) = ground arith
  Step-Inv inv (first_acquire e f) = ground arith
  Step-Inv inv (call_back e) = ground arith
  Step-Inv inv (callback_ends e) = ground arith
  Step-Inv inv (callback_calls e f) = ground arith
  Step-Inv inv (callback_locks e f) = ground arith
  Step-Inv inv (callback_unlocks e) = ground arith
  Step-Inv inv (release e) = ground arith
  Step-Inv inv (acquire e f) = ground arith
  Step-Inv inv (loop_ends e) = ground arith
  Step-Inv {s} inv (client_checks i h e f) =
      let sh = moved s.client i outside checked h e in ground arith
  Step-Inv {s} inv (client_fails i h e) =
      let sh = moved s.client i checked outside h e in ground arith
  Step-Inv inv (client_locks i h e f (inl early)) = absurd (ground arith)
  Step-Inv {s} inv (client_locks i h e f (inr set_up)) =
      let sh = moved s.client i checked inside h e in ground arith
  Step-Inv {s} inv (client_unlocks i h e) =
      let sh = moved s.client i inside outside h e in ground arith

  pub zeroed-Inv : Inv n zeroed
  zeroed-Inv = record {
    exclusive = omega (arith, tally-zero is_inside n (λ _. outside) (λ _. refl));
    binary = omega arith;
    alone = refl;
    early_free = λ e. refl;
  }

  pub Later-Inv : {s t : System} → Inv n s → Later false n s t → Inv n t
  Later-Inv inv now = inv
  Later-Inv inv (then r st) = Step-Inv (Later-Inv inv r) st

  module _ {s : System} (r : Later false n zeroed s) where
    inv : Inv n s
    inv = Later-Inv zeroed-Inv r

    -- If no thread locks the mutex before it is initialised: while a thread is inside
    -- `bf_sys_timer_start` or `bf_sys_timer_stop` with the mutex, the thread of the loop is not between
    -- two waits for events, and no other thread is inside.
    pub one_at_work :
        (i : ℕ)
        → i < n
        → s.client i ≡ inside
        → (holds s.loop ≡ 0) × ((j : ℕ) → j < n → s.client j ≡ inside → i ≡ j)
    one_at_work i hi e = (
      omega (arith, inv.exclusive, inv.binary, rw e at (le-tally is_inside n s.client i hi)),
      λ j hj e'. elim (ℕ_discrete i j) [
        | yes same ↦ same
        | no other ↦
            absurd (
              omega
                (arith, inv, rw (e, e') at (pair-le-tally is_inside n s.client i j hi hj other)))
      ],
    )
