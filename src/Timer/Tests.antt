-- ===== src/Timer/Tests.antt =====
-- The theorems on timers at a concrete loop.
use target_syslibs.Base.{
  ℕ, ◌≡◌, refl, true, inl, inr, Bool-cases, some, [], ◌∷◌, arith, if◌then◌else◌, ltb, le→not-ltb,
}
use target_syslibs.Base.Outcome.{done}
use target_syslibs.Timer.{timer_ok, Timer, Loop, Answers, bf_sys_timer_del}
use target_syslibs.Timer.Clock.{
  Clocks, SetsTime, bf_sys_gettimeofday, bf_sys_settimeofday, gettimeofday-settimeofday,
}
use target_syslibs.Sem.Store.{minus_one}
use target_syslibs.Timer.Life.{made, running, del-start}

abbrev loop : Loop
loop = record { inited = true; heap = 3 ∷ []; watchers = []; active = 3 ∷ []; sends = 1 }

abbrev works : Answers
works = record { malloc = some 8; lock = 0; unlock = 0 }

abbrev blank : Timer
blank = record { cb_fn = 0; cb_data = 0; timer = 0 }

del-start_example :
    ((running works 10 20 5 6 blank loop).0 ≡ timer_ok)
    × ((running works 10 20 5 6 blank loop).1.active ≡ 8 ∷ 3 ∷ [])
    × (bf_sys_timer_del works
          (made works 10 20 5 6 blank loop).1
          (running works 10 20 5 6 blank loop).1
        ≡ done (
          timer_ok,
          some (record { cb_fn = 0; cb_data = 6; timer = 0 }),
          record (running works 10 20 5 6 blank loop).1 {
            heap = 3 ∷ [];
            active = 3 ∷ [];
            sends = 3;
          },
        ))
del-start_example =
    del-start works 10 20 5 6 8 blank loop (omega arith) refl (omega arith) refl refl refl refl

-- The time of day in a world that has nothing else.
abbrev wall : Clocks (ℕ × ℕ)
wall = record {
  sleep = λ n w. (0, w);
  usleep = λ n w. (0, w);
  settimeofday = λ sec usec w. if ltb usec 1000000 then (0, (sec, usec)) else (minus_one, w);
  gettimeofday = λ w. some w;
  clock_settime = λ k sec nsec w. (minus_one, w);
  clock_gettime = λ k w. some w;
}

wall-reads :
    (sec usec : ℕ) (w : ℕ × ℕ)
    → (wall.settimeofday sec usec w).0 ≡ 0
    → wall.gettimeofday (wall.settimeofday sec usec w).1 ≡ some (sec, usec)
wall-reads sec usec w = elim (Bool-cases (ltb usec 1000000)) [
  | inl e ↦ rw (e) (λ ok. refl)
  | inr e ↦ rw (e) (λ ok. absurd (omega (arith, ok)))
]

wall-SetsTime : SetsTime wall
wall-SetsTime = record {
  bad_usec = λ sec usec w late. rw (le→not-ltb usec 1000000 late) refl;
  reads = wall-reads;
}

gettimeofday-wall :
    bf_sys_gettimeofday wall 7 8 (bf_sys_settimeofday wall 1700000000 250000 (0, 0)).1
    ≡ (0, 1700000000, 250000)
unfolding bf_sys_settimeofday
gettimeofday-wall =
    gettimeofday-settimeofday wall wall-SetsTime 1700000000 250000 7 8 (0, 0) (omega arith)
      (omega arith) refl
