-- ===== src/Sem/Locks/Posix.antt =====
-- What the threads library documents of mutexes and semaphores, as seen by one thread.
use target_syslibs.Base.{ℕ, suc, ◌-◌, ◌^◌, ◌<◌, ◌≡◌, Option, none, some}
use target_syslibs.Base.Outcome.{Outcome, done}
use target_syslibs.Sem.Store.{Kind, checked_mutex, minus_one}
use target_syslibs.Sem.Locks.{Threads}

abbrev pub eperm : ℕ
eperm = 1

abbrev pub ebusy : ℕ
ebusy = 16

abbrev pub edeadlk : ℕ
edeadlk = 35

-- `SEM_VALUE_MAX`
abbrev pub sem_value_max : ℕ
sem_value_max = 2 ^ 31 - 1

-- How the state is read: the attribute of a mutex, its owner with the number of locks less 1, and the
-- value of a semaphore.
pub record View (W : Type 0) : Type 0 where
  pub kind : W → ℕ → Kind
  pub owner : W → ℕ → Option (ℕ × ℕ)
  pub value : W → ℕ → ℕ

-- A call on the mutex `m` that returns 0 and leaves the owner `o`.
pub record Works {W : Type 0} (v : View W) (m : ℕ) (call : Outcome (ℕ × W)) (w : W)
    (o : Option (ℕ × ℕ)) : Type 0 where
  pub after : W
  pub returns : call ≡ done (0, after)
  pub owner_is : v.owner after m ≡ o
  pub same_kind : v.kind after m ≡ v.kind w m

-- A call on the semaphore `s` that returns 0 and leaves the value `k`.
pub record Counts {W : Type 0} (v : View W) (s : ℕ) (call : Outcome (ℕ × W)) (k : ℕ) : Type 0 where
  pub after : W
  pub returns : call ≡ done (0, after)
  pub value_is : v.value after s ≡ k

pub record IsPosix {W : Type 0} (t : Threads W) (v : View W) : Type 0 where
  pub lock_free :
      (i m : ℕ) (w : W) → v.owner w m ≡ none → Works v m (t.mutex_lock i m w) w (some (i, 0))
  pub lock_again :
      (i m k : ℕ) (w : W)
      → v.kind w m ≡ checked_mutex
      → v.owner w m ≡ some (i, k)
      → t.mutex_lock i m w ≡ done (edeadlk, w)
  pub trylock_busy :
      (i m k : ℕ) (w : W)
      → v.kind w m ≡ checked_mutex
      → v.owner w m ≡ some (i, k)
      → t.mutex_trylock i m w ≡ done (ebusy, w)
  pub unlock_last :
      (i m : ℕ) (w : W) → v.owner w m ≡ some (i, 0) → Works v m (t.mutex_unlock i m w) w none
  pub unlock_free :
      (i m : ℕ) (w : W)
      → v.kind w m ≡ checked_mutex
      → v.owner w m ≡ none
      → t.mutex_unlock i m w ≡ done (eperm, w)
  pub post :
      (s : ℕ) (w : W)
      → v.value w s < sem_value_max
      → Counts v s (t.sem_post s w) (suc (v.value w s))
  pub wait_some : (s k : ℕ) (w : W) → v.value w s ≡ suc k → Counts v s (t.sem_trywait s w) k
  pub wait_none : (s : ℕ) (w : W) → v.value w s ≡ 0 → t.sem_trywait s w ≡ done (minus_one, w)
