-- ===== src/Sem/Locks.antt =====
-- The functions that lock, unlock, wait and post: each passes its handle to one call of the threads
-- library. The library is a parameter over a state `W`; a call that waits for ever, with no other
-- thread running, is `blocked`. `i` is the calling thread.
pub mod Posix
pub mod Mutexes
pub mod Semaphores
mod Toy
use target_syslibs.Base.{ℕ, if◌then◌else◌, ◌==◌}
use target_syslibs.Base.Outcome.{Outcome}

-- `struct timespec`
pub record Timespec : Type 0 where
  pub tv_sec : ℕ
  pub tv_nsec : ℕ

pub record Threads (W : Type 0) : Type 0 where
  pub mutex_lock : (i m : ℕ) → W → Outcome (ℕ × W)
  pub mutex_trylock : (i m : ℕ) → W → Outcome (ℕ × W)
  pub mutex_timedlock : (i m : ℕ) → Timespec → W → Outcome (ℕ × W)
  pub mutex_unlock : (i m : ℕ) → W → Outcome (ℕ × W)
  pub cond_wait : (i c m : ℕ) → W → Outcome (ℕ × W)
  pub cond_signal : (c : ℕ) → W → Outcome (ℕ × W)
  pub cond_broadcast : (c : ℕ) → W → Outcome (ℕ × W)
  pub sem_wait : (s : ℕ) → W → Outcome (ℕ × W)
  pub sem_trywait : (s : ℕ) → W → Outcome (ℕ × W)
  pub sem_post : (s : ℕ) → W → Outcome (ℕ × W)
  pub rwlock_rdlock : (i l : ℕ) → W → Outcome (ℕ × W)
  pub rwlock_tryrdlock : (i l : ℕ) → W → Outcome (ℕ × W)
  pub rwlock_timedrdlock : (i l : ℕ) → Timespec → W → Outcome (ℕ × W)
  pub rwlock_wrlock : (i l : ℕ) → W → Outcome (ℕ × W)
  pub rwlock_trywrlock : (i l : ℕ) → W → Outcome (ℕ × W)
  pub rwlock_timedwrlock : (i l : ℕ) → Timespec → W → Outcome (ℕ × W)
  pub rwlock_unlock : (i l : ℕ) → W → Outcome (ℕ × W)

-- `bf_sys_mutex_t`, `bf_sys_rmutex_t` and `bf_sys_rwlock_t` are handles: the address of the object.
module _ {W : Type 0} (t : Threads W) where
  unfoldable pub bf_sys_mutex_lock : (i bf_mutex : ℕ) → W → Outcome (ℕ × W)
  bf_sys_mutex_lock i bf_mutex = t.mutex_lock i bf_mutex

  unfoldable pub bf_sys_mutex_trylock : (i bf_mutex : ℕ) → W → Outcome (ℕ × W)
  bf_sys_mutex_trylock i bf_mutex = t.mutex_trylock i bf_mutex

  unfoldable pub bf_sys_mutex_timedlock : (i bf_mutex abs_sec abs_nsec : ℕ) → W → Outcome (ℕ × W)
  bf_sys_mutex_timedlock i bf_mutex abs_sec abs_nsec =
      t.mutex_timedlock i bf_mutex (record { tv_sec = abs_sec; tv_nsec = abs_nsec })

  unfoldable pub bf_sys_mutex_unlock : (i bf_mutex : ℕ) → W → Outcome (ℕ × W)
  bf_sys_mutex_unlock i bf_mutex = t.mutex_unlock i bf_mutex

  unfoldable pub bf_sys_rmutex_lock : (i mtx : ℕ) → W → Outcome (ℕ × W)
  bf_sys_rmutex_lock i mtx = t.mutex_lock i mtx

  unfoldable pub bf_sys_rmutex_trylock : (i mtx : ℕ) → W → Outcome (ℕ × W)
  bf_sys_rmutex_trylock i mtx = t.mutex_trylock i mtx

  unfoldable pub bf_sys_rmutex_unlock : (i mtx : ℕ) → W → Outcome (ℕ × W)
  bf_sys_rmutex_unlock i mtx = t.mutex_unlock i mtx

  unfoldable pub bf_sys_cond_wait : (i c bf_mutex : ℕ) → W → Outcome (ℕ × W)
  bf_sys_cond_wait i c bf_mutex = t.cond_wait i c bf_mutex

  unfoldable pub bf_sys_cond_wake : (c : ℕ) → W → Outcome (ℕ × W)
  bf_sys_cond_wake c = t.cond_signal c

  unfoldable pub bf_sys_cond_broadcast : (c : ℕ) → W → Outcome (ℕ × W)
  bf_sys_cond_broadcast c = t.cond_broadcast c

  unfoldable pub bf_sys_sem_wait : (sem : ℕ) → W → Outcome (ℕ × W)
  bf_sys_sem_wait sem = t.sem_wait sem

  unfoldable pub bf_sys_sem_trywait : (sem : ℕ) → W → Outcome (ℕ × W)
  bf_sys_sem_trywait sem = t.sem_trywait sem

  unfoldable pub bf_sys_sem_post : (sem : ℕ) → W → Outcome (ℕ × W)
  bf_sys_sem_post sem = t.sem_post sem

  unfoldable pub bf_sys_rwlock_rdlock : (i bf_rwlock : ℕ) → W → Outcome (ℕ × W)
  bf_sys_rwlock_rdlock i bf_rwlock = t.rwlock_rdlock i bf_rwlock

  unfoldable pub bf_sys_rwlock_tryrdlock : (i bf_rwlock : ℕ) → W → Outcome (ℕ × W)
  bf_sys_rwlock_tryrdlock i bf_rwlock = t.rwlock_tryrdlock i bf_rwlock

  unfoldable pub bf_sys_rwlock_timedrdlock :
      (i bf_rwlock abs_sec abs_nsec : ℕ) → W → Outcome (ℕ × W)
  bf_sys_rwlock_timedrdlock i bf_rwlock abs_sec abs_nsec =
      t.rwlock_timedrdlock i bf_rwlock (record { tv_sec = abs_sec; tv_nsec = abs_nsec })

  unfoldable pub bf_sys_rwlock_wrlock : (i bf_rwlock : ℕ) → W → Outcome (ℕ × W)
  bf_sys_rwlock_wrlock i bf_rwlock = t.rwlock_wrlock i bf_rwlock

  unfoldable pub bf_sys_rwlock_trywrlock : (i bf_rwlock : ℕ) → W → Outcome (ℕ × W)
  bf_sys_rwlock_trywrlock i bf_rwlock = t.rwlock_trywrlock i bf_rwlock

  unfoldable pub bf_sys_rwlock_timedwrlock :
      (i bf_rwlock abs_sec abs_nsec : ℕ) → W → Outcome (ℕ × W)
  bf_sys_rwlock_timedwrlock i bf_rwlock abs_sec abs_nsec =
      t.rwlock_timedwrlock i bf_rwlock (record { tv_sec = abs_sec; tv_nsec = abs_nsec })

  unfoldable pub bf_sys_rwlock_unlock : (i bf_rwlock : ℕ) → W → Outcome (ℕ × W)
  bf_sys_rwlock_unlock i bf_rwlock = t.rwlock_unlock i bf_rwlock

-- One atomic access: whether the word is changed, and the word after it.
unfoldable pub bf_sys_compare_and_swap : (var old_val new_val : ℕ) → ℕ × ℕ
bf_sys_compare_and_swap var old_val new_val = if var == old_val then (1, new_val) else (0, var)
