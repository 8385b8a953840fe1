-- ===== src/Sem/RwLock.antt =====
-- `bf_sys_rw_mutex_lock_rdlock`, `_wrlock`, `_rdunlock` and `_wrunlock`: the parts that a thread runs
-- while it holds the mutex, and any number of threads that run them on one lock.
pub mod Count
mod Inv
mod Moves
pub mod Safety
mod Wake
pub mod Wakeup
mod Run
mod Progress
pub mod Drained
pub mod Failing
pub mod Priority
mod Tests
use target_syslibs.Base.{
  ℕ, zero, suc, ◌+◌, ◌-◌, ◌^◌, ◌<◌, ◌≡◌, ◌≢◌, Bool, true, false, not, ◌&&◌, ◌||◌, if◌then◌else◌,
  ltb, ◌==◌,
}
use target_syslibs.Base.Words.{u32}
use target_syslibs.Base.Threads.{assign}

-- The counters of `bf_sys_rw_mutex_lock_t`, as the patterns of `int`s.
pub record Lock : Type 0 where
  pub r_active : ℕ
  pub w_active : ℕ
  pub r_wait : ℕ
  pub w_wait : ℕ

-- `x > 0`, `x++` and `x--` on an `int`.
abbrev pub positive : ℕ → Bool
positive x = ltb 0 x && ltb x (2 ^ 31)

abbrev pub next : ℕ → ℕ
next x = u32 (x + 1)

abbrev pub prev : ℕ → ℕ
prev x = u32 (x + 2 ^ 32 - 1)

-- How a part ends: the lock is taken, the thread waits in `pthread_cond_wait`, or that call's error
-- is returned.
pub data Entry : Type 0 where
  granted asleep failed : Entry

-- The conditions under which a reader and a writer wait.
abbrev pub busy_for_reader : Lock → Bool
busy_for_reader l = not (l.w_active == 0) || not (l.w_wait == 0)

abbrev pub busy_for_writer : Lock → Bool
busy_for_writer l = not (l.w_active == 0) || not (l.r_active == 0)

-- From the return of `pthread_mutex_lock` to the end or to the first wait.
unfoldable pub rdlock_enter : Lock → Entry × Lock
rdlock_enter l =
    if busy_for_reader l
    then (asleep, record l { r_wait = next l.r_wait })
    else (granted, record l { r_active = next l.r_active })

unfoldable pub wrlock_enter : Lock → Entry × Lock
wrlock_enter l =
    if busy_for_writer l
    then (asleep, record l { w_wait = next l.w_wait })
    else (granted, record l { w_active = next l.w_active })

-- From the return of `pthread_cond_wait` on: the loop's test, or the way out of the loop.
unfoldable pub rdlock_resume : (error : Bool) → Lock → Entry × Lock
rdlock_resume error l =
    if error
    then (failed, record l { r_wait = prev l.r_wait })
    else if busy_for_reader l
    then (asleep, l)
    else (granted, record l { r_wait = prev l.r_wait; r_active = next l.r_active })

unfoldable pub wrlock_resume : (error : Bool) → Lock → Entry × Lock
wrlock_resume error l =
    if error
    then (failed, record l { w_wait = prev l.w_wait })
    else if busy_for_writer l
    then (asleep, l)
    else (granted, record l { w_wait = prev l.w_wait; w_active = next l.w_active })

-- What the unlocking functions signal.
pub data Signal : Type 0 where
  silent one_writer all_readers : Signal

unfoldable pub rdunlock_part : Lock → Signal × Lock
rdunlock_part l =
    let r_active = prev l.r_active in
    (
      if r_active == 0 && positive l.w_wait then one_writer else silent,
      record l { r_active = r_active },
    )

unfoldable pub wrunlock_part : Lock → Signal × Lock
wrunlock_part l = (
  if positive l.w_wait then one_writer else if positive l.r_wait then all_readers else silent,
  record l { w_active = 0 },
)

-- Where a thread is. A woken thread has been signalled and waits for the mutex.
pub data Thread : Type 0 where
  idle reading writing : Thread
  r_asleep r_woken w_asleep w_woken : Thread

abbrev pub reader : Entry → Thread
reader granted = reading
reader asleep = r_asleep
reader failed = idle

abbrev pub writer : Entry → Thread
writer granted = writing
writer asleep = w_asleep
writer failed = idle

abbrev pub wake_reader : Thread → Thread
wake_reader r_asleep = r_woken
wake_reader t = t

-- The threads after a signal: `pthread_cond_signal` wakes a thread if one waits on the condition.
pub data Wakes (n : ℕ) (pc : ℕ → Thread) : Signal → (ℕ → Thread) → Type 0 where
  no_signal : Wakes n pc silent pc
  woke_one : (j : ℕ) → j < n → pc j ≡ w_asleep → Wakes n pc one_writer (assign pc j w_woken)
  woke_none : ((j : ℕ) → j < n → pc j ≢ w_asleep) → Wakes n pc one_writer pc
  woke_all : Wakes n pc all_readers (λ j. wake_reader (pc j))

pub record System : Type 0 where
  pub lock : Lock
  pub pc : ℕ → Thread

-- A thread holds the mutex for one part. `fails` says whether `pthread_cond_wait` may return an
-- error; a wake-up may be spurious.
pub data Step (fails : Bool) (n : ℕ) (s : System) : System → Type 0 where
  rd_call :
      (i : ℕ)
      → i < n
      → s.pc i ≡ idle
      → Step fails n s (record {
        lock = (rdlock_enter s.lock).1;
        pc = assign s.pc i (reader (rdlock_enter s.lock).0);
      })
  wr_call :
      (i : ℕ)
      → i < n
      → s.pc i ≡ idle
      → Step fails n s (record {
        lock = (wrlock_enter s.lock).1;
        pc = assign s.pc i (writer (wrlock_enter s.lock).0);
      })
  rd_resume :
      (i : ℕ) (error : Bool)
      → i < n
      → s.pc i ≡ r_woken
      → (error ≡ true → fails ≡ true)
      → Step fails n s (record {
        lock = (rdlock_resume error s.lock).1;
        pc = assign s.pc i (reader (rdlock_resume error s.lock).0);
      })
  wr_resume :
      (i : ℕ) (error : Bool)
      → i < n
      → s.pc i ≡ w_woken
      → (error ≡ true → fails ≡ true)
      → Step fails n s (record {
        lock = (wrlock_resume error s.lock).1;
        pc = assign s.pc i (writer (wrlock_resume error s.lock).0);
      })
  rd_unlock :
      (i : ℕ) (pc' : ℕ → Thread)
      → i < n
      → s.pc i ≡ reading
      → Wakes n (assign s.pc i idle) (rdunlock_part s.lock).0 pc'
      → Step fails n s (record { lock = (rdunlock_part s.lock).1; pc = pc' })
  wr_unlock :
      (i : ℕ) (pc' : ℕ → Thread)
      → i < n
      → s.pc i ≡ writing
      → Wakes n (assign s.pc i idle) (wrunlock_part s.lock).0 pc'
      → Step fails n s (record { lock = (wrunlock_part s.lock).1; pc = pc' })
  spurious_reader :
      (i : ℕ) → i < n → s.pc i ≡ r_asleep → Step fails n s (record s { pc = assign s.pc i r_woken })
  spurious_writer :
      (i : ℕ) → i < n → s.pc i ≡ w_asleep → Step fails n s (record s { pc = assign s.pc i w_woken })

-- What `bf_sys_rw_mutex_lock_init` leaves of the counters, before any call.
abbrev pub start_state : System
start_state = record {
  lock = record { r_active = 0; w_active = 0; r_wait = 0; w_wait = 0 };
  pc = λ _. idle;
}

pub data Reach (fails : Bool) (n : ℕ) : System → Type 0 where
  start : Reach fails n start_state
  later : {s t : System} → Reach fails n s → Step fails n s t → Reach fails n t
