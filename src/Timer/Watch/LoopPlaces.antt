-- ===== src/Timer/Watch/LoopPlaces.antt =====
-- What a step of the mutex model does to the place of the thread of the loop.
use target_syslibs.Base.{ℕ, ◌≡◌, ◌⊎◌, false, arith}
use target_syslibs.Timer.Race.{
  LoopPc, at_start, flagged, mutex_made, working, in_callback, polling, calling, calling_in, ended,
  outside, checked, inside, no_loop, set_inited, make_mutex, first_acquire, call_back,
  callback_ends, callback_calls, callback_locks, callback_unlocks, release, acquire, loop_ends,
  client_checks, client_fails, client_locks, client_unlocks, zeroed,
}
use target_syslibs.Timer.Race
use target_syslibs.Timer.Race.Safety.{holds}

-- The thread of the loop is past the setting of `inited`.
abbrev pub begun : LoopPc → ℕ
begun at_start = 0
begun ended = 0
begun _ = 1

module _ {n : ℕ} where
  pub released :
      {s t : Race.System}
      → Race.Step false n s t
      → holds t.loop ≡ 0
      → (holds s.loop ≡ 0) ⊎ (s.loop ≡ working)
  released (no_loop e) h = ground arith
  released (set_inited e) h = ground arith
  released (make_mutex e) h = ground arith
  released (first_acquire e f) h = ground arith
  released (call_back e) h = ground arith
  released (callback_ends e) h = ground arith
  released (callback_calls e f) h = ground arith
  released (callback_locks e f) h = ground arith
  released (callback_unlocks e) h = ground arith
  released (release e) h = ground arith
  released (acquire e f) h = ground arith
  released (loop_ends e) h = ground arith
  released (client_checks i hi e f) h = ground arith
  released (client_fails i hi e) h = ground arith
  released (client_locks i hi e f g) h = ground arith
  released (client_unlocks i hi e) h = ground arith

  pub still_unset :
      {s t : Race.System}
      → (s.inited ≡ false → begun s.loop ≡ 0)
      → Race.Step false n s t
      → t.inited ≡ false
      → (s.inited ≡ false) × (begun t.loop ≡ 0)
  still_unset b (no_loop e) h = ground arith
  still_unset b (set_inited e) h = ground arith
  still_unset b (make_mutex e) h = ground arith
  still_unset b (first_acquire e f) h = ground arith
  still_unset b (call_back e) h = ground arith
  still_unset b (callback_ends e) h = ground arith
  still_unset b (callback_calls e f) h = ground arith
  still_unset b (callback_locks e f) h = ground arith
  still_unset b (callback_unlocks e) h = ground arith
  still_unset b (release e) h = ground arith
  still_unset b (acquire e f) h = ground arith
  still_unset b (loop_ends e) h = ground arith
  still_unset b (client_checks i hi e f) h = ground arith
  still_unset b (client_fails i hi e) h = ground arith
  still_unset b (client_locks i hi e f g) h = ground arith
  still_unset b (client_unlocks i hi e) h = ground arith

pub begun-holds : (l : LoopPc) → begun l ≡ 0 → holds l ≡ 0
begun-holds l e = ground arith
