-- ===== src/Timer/Watch.antt =====
-- The watchers of libev under concurrency: `bf_sys_timer_create`, `_start`, `_stop` and `_del` by any
-- number of threads, each on its own timers, and the loop that calls back the timers that expire. The
-- mutex, the thread of the loop and the places of the threads are those of Timer/Race.
mod Tasks
mod LoopPlaces
mod Moves
pub mod Safety
pub mod Dangling
mod Tests
use target_syslibs.Base.{
  ℕ, ◌<◌, ◌≡◌, ◌≢◌, ◌⊎◌, Bool, true, false, Option, none, some, if◌then◌else◌,
}
use target_syslibs.Base.Threads.{assign}
use target_syslibs.Timer.Race.{
  LoopPc, working, in_callback, outside, checked, inside, ready, zeroed,
}
use target_syslibs.Timer.Race

-- The functions that run under the mutex, with the watcher of the timer they are called for.
pub data Call : Type 0 where
  starting stopping deleting : Call

-- What a thread is doing: nothing, a call, or the end of `bf_sys_timer_del`, where it is about to free
-- the watcher.
pub data Task : Type 0 where
  no_task : Task
  runs : (c : Call) (w : ℕ) → Task
  frees : (w : ℕ) → Task

-- `owner` gives the thread whose timer has the block as its watcher; a block without owner is not
-- allocated. `active` are the watchers that are started and `pending` those that have expired.
pub record System : Type 0 where
  pub base : Race.System
  pub owner : ℕ → Option ℕ
  pub active : ℕ → Bool
  pub pending : ℕ → Bool
  pub task : ℕ → Task

-- `ev_timer_start` or `ev_timer_stop`, which also takes a watcher off the pending ones.
abbrev pub active_after : Call → ℕ → (ℕ → Bool) → ℕ → Bool
active_after starting w active = assign active w true
active_after stopping w active = assign active w false
active_after deleting w active = assign active w false

abbrev pub pending_after : Call → ℕ → (ℕ → Bool) → ℕ → Bool
pending_after starting w pending = pending
pending_after stopping w pending = assign pending w false
pending_after deleting w pending = assign pending w false

-- `bf_sys_timer_del` goes on whatever the stop returned.
abbrev pub rest_of : Call → ℕ → Task
rest_of starting w = no_task
rest_of stopping w = no_task
rest_of deleting w = frees w

-- `early` says whether a thread may lock the mutex before it is initialised, and `fails` whether the
-- mutex may refuse to be locked.
pub data Step (early fails : Bool) (n : ℕ) (s : System) : System → Type 0 where
  -- The thread of the loop moves without a timer. It releases the mutex when nothing is pending.
  loop_moves :
      {b : Race.System}
      → Race.Step early n s.base b
      → b.client ≡ s.base.client
      → (s.base.loop ≡ working → (w : ℕ) → s.pending w ≡ false)
      → Step early fails n s (record s { base = b })
  -- A timer without a period is stopped when it expires.
  expires :
      (w : ℕ) (once : Bool)
      → s.base.loop ≡ working
      → s.active w ≡ true
      → Step early fails n s (record s {
        active = if once then assign s.active w false else s.active;
        pending = assign s.pending w true;
      })
  calls_back :
      (w : ℕ)
      → s.base.loop ≡ working
      → s.pending w ≡ true
      → Step early fails n s (record s {
        base = record s.base { loop = in_callback };
        pending = assign s.pending w false;
      })
  creates :
      (i w : ℕ)
      → i < n
      → s.task i ≡ no_task
      → s.owner w ≡ none
      → Step early fails n s (record s { owner = assign s.owner w (some i) })
  begins :
      (i : ℕ) (c : Call) (w : ℕ)
      → i < n
      → s.task i ≡ no_task
      → s.owner w ≡ some i
      → s.base.client i ≡ outside
      → s.base.inited ≡ true
      → Step early fails n s (record s {
        base = record s.base { client = assign s.base.client i checked };
        task = assign s.task i (runs c w);
      })
  -- The loop is not set up: the stop in `bf_sys_timer_del` returns at once.
  deletes_early :
      (i w : ℕ)
      → i < n
      → s.task i ≡ no_task
      → s.owner w ≡ some i
      → s.base.inited ≡ false
      → Step early fails n s (record s { task = assign s.task i (frees w) })
  refused :
      (i : ℕ) (c : Call) (w : ℕ)
      → fails ≡ true
      → i < n
      → s.task i ≡ runs c w
      → s.base.client i ≡ checked
      → Step early fails n s (record s {
        base = record s.base { client = assign s.base.client i outside };
        task = assign s.task i (rest_of c w);
      })
  locks :
      (i : ℕ) (c : Call) (w : ℕ)
      → i < n
      → s.task i ≡ runs c w
      → s.base.client i ≡ checked
      → s.base.locked ≡ 0
      → (early ≡ true) ⊎ (ready s.base.loop ≡ true)
      → Step early fails n s
          (record s { base = record s.base { locked = 1; client = assign s.base.client i inside } })
  works :
      (i : ℕ) (c : Call) (w : ℕ)
      → i < n
      → s.task i ≡ runs c w
      → s.base.client i ≡ inside
      → Step early fails n s (record s {
        base = record s.base { locked = 0; client = assign s.base.client i outside };
        active = active_after c w s.active;
        pending = pending_after c w s.pending;
        task = assign s.task i (rest_of c w);
      })
  gives_back :
      (i w : ℕ)
      → i < n
      → s.task i ≡ frees w
      → Step early fails n s
          (record s { owner = assign s.owner w none; task = assign s.task i no_task })

-- No timer has been created.
abbrev pub unused : System
unused = record {
  base = zeroed;
  owner = λ _. none;
  active = λ _. false;
  pending = λ _. false;
  task = λ _. no_task;
}

pub data Reach (early fails : Bool) (n : ℕ) : System → Type 0 where
  start : Reach early fails n unused
  later : {s t : System} → Reach early fails n s → Step early fails n s t → Reach early fails n t
