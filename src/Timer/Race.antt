-- ===== src/Timer/Race.antt =====
-- `bf_sys_timer_init` in the thread of the loop, and `bf_sys_timer_start`, `bf_sys_timer_stop` and
-- `bf_sys_timer_del` in other threads and in the callbacks of timers: who holds the mutex `u.lock`.
-- libev calls `l_release` before it waits for events and `l_acquire` after, and the callbacks between.
pub mod Safety
pub mod Deadlock
pub mod Early
mod Tests
use target_syslibs.Base.{ℕ, ◌<◌, ◌≡◌, ◌⊎◌, Bool, true, false}
use target_syslibs.Base.Threads.{assign}

-- Where the thread of the loop stands in `bf_sys_timer_init`.
pub data LoopPc : Type 0 where
  -- before `u.inited = 1`, before the mutex is initialised, before the first `l_acquire`
  at_start flagged mutex_made : LoopPc
  -- in `ev_loop`: between two callbacks, in a callback of a timer, waiting for events
  working in_callback polling : LoopPc
  -- in a call of a timer function by a callback: before it has the mutex, and with it
  calling calling_in : LoopPc
  ended : LoopPc

-- Where another thread stands in `bf_sys_timer_start` or `bf_sys_timer_stop`: outside, past the test
-- of `u.inited`, or at work on the loop under the mutex.
pub data Client : Type 0 where
  outside checked inside : Client

pub record System : Type 0 where
  pub inited : Bool
  pub locked : ℕ
  pub loop : LoopPc
  pub client : ℕ → Client

-- The mutex has been initialised.
abbrev pub ready : LoopPc → Bool
ready at_start = false
ready flagged = false
ready _ = true

-- `early` says whether a thread may lock the mutex before it is initialised.
pub data Step (early : Bool) (n : ℕ) (s : System) : System → Type 0 where
  no_loop : s.loop ≡ at_start → Step early n s (record s { loop = ended })
  set_inited : s.loop ≡ at_start → Step early n s (record s { inited = true; loop = flagged })
  make_mutex : s.loop ≡ flagged → Step early n s (record s { locked = 0; loop = mutex_made })
  first_acquire :
      s.loop ≡ mutex_made → s.locked ≡ 0 → Step early n s (record s { locked = 1; loop = working })
  call_back : s.loop ≡ working → Step early n s (record s { loop = in_callback })
  callback_ends : s.loop ≡ in_callback → Step early n s (record s { loop = working })
  callback_calls :
      s.loop ≡ in_callback → s.inited ≡ true → Step early n s (record s { loop = calling })
  callback_locks :
      s.loop ≡ calling → s.locked ≡ 0 → Step early n s (record s { locked = 1; loop = calling_in })
  callback_unlocks :
      s.loop ≡ calling_in → Step early n s (record s { locked = 0; loop = in_callback })
  release : s.loop ≡ working → Step early n s (record s { locked = 0; loop = polling })
  acquire :
      s.loop ≡ polling → s.locked ≡ 0 → Step early n s (record s { locked = 1; loop = working })
  loop_ends : s.loop ≡ working → Step early n s (record s { locked = 0; loop = ended })
  client_checks :
      (i : ℕ)
      → i < n
      → s.client i ≡ outside
      → s.inited ≡ true
      → Step early n s (record s { client = assign s.client i checked })
  client_fails :
      (i : ℕ)
      → i < n
      → s.client i ≡ checked
      → Step early n s (record s { client = assign s.client i outside })
  client_locks :
      (i : ℕ)
      → i < n
      → s.client i ≡ checked
      → s.locked ≡ 0
      → (early ≡ true) ⊎ (ready s.loop ≡ true)
      → Step early n s (record s { locked = 1; client = assign s.client i inside })
  client_unlocks :
      (i : ℕ)
      → i < n
      → s.client i ≡ inside
      → Step early n s (record s { locked = 0; client = assign s.client i outside })

-- The static `u` is zeroed, and a mutex of zeros is one that is free.
abbrev pub zeroed : System
zeroed = record { inited = false; locked = 0; loop = at_start; client = λ _. outside }

-- What follows a state in any number of steps.
pub data Later (early : Bool) (n : ℕ) (s : System) : System → Type 0 where
  now : Later early n s s
  then : {t u : System} → Later early n s t → Step early n t u → Later early n s u
