-- ===== src/Sem/Objects.antt =====
-- The functions that make and delete a mutex, a recursive mutex, a condition variable, a semaphore
-- and a lock for readers and writers. A handle is the field or variable that they write; `none` is
-- one that they leave as it is.
pub mod Laws
use target_syslibs.Base.{ℕ, Option, none, some, if◌then◌else◌, ◌==◌}
use target_syslibs.Base.Outcome.{Outcome, done, ◌>>=◌}
use target_syslibs.Sem.Store.{
  Store, Kind, checked_mutex, recursive_mutex, condition, semaphore, rwlock, Library, minus_one, S,
  bf_sys_malloc, free, begin, finish,
}

module _ (lib : Library) where
  unfoldable pub bf_sys_mutex_init : S (ℕ × Option ℕ)
  unfolding bf_sys_malloc begin
  bf_sys_mutex_init st = do
    (m, st₁) ← bf_sys_malloc lib st
    elim m [
      | none ↦ done ((minus_one, some 0), st₁)
      | some a ↦ do (x, st₂) ← begin lib checked_mutex a st₁; done ((x, some a), st₂)
    ]

  unfoldable pub bf_sys_mutex_del : ℕ → S (ℕ × Option ℕ)
  unfolding finish free
  bf_sys_mutex_del bf_mutex st = do
    (err, st₁) ← finish lib checked_mutex bf_mutex st
    if err == 0
        then (do (_, st₂) ← free bf_mutex st₁; done ((0, some 0), st₂))
        else done ((err, none), st₁)

  unfoldable pub bf_sys_rmutex_init : S (ℕ × Option ℕ)
  unfolding bf_sys_malloc begin
  bf_sys_rmutex_init st = do
    (m, st₁) ← bf_sys_malloc lib st
    elim m [
      | none ↦ done ((minus_one, none), st₁)
      | some a ↦ do (x, st₂) ← begin lib recursive_mutex a st₁; done ((x, some a), st₂)
    ]

  unfoldable pub bf_sys_rmutex_del : ℕ → S (ℕ × Option ℕ)
  unfolding finish free
  bf_sys_rmutex_del mtx st = do
    (err, st₁) ← finish lib recursive_mutex mtx st
    if err == 0
        then (do (_, st₂) ← free mtx st₁; done ((0, some 0), st₂))
        else done ((err, none), st₁)

  unfoldable pub bf_sys_cond_init : S (ℕ × Option ℕ)
  unfolding bf_sys_malloc begin free
  bf_sys_cond_init st = do
    (cv, st₁) ← bf_sys_malloc lib st
    elim cv [
      | none ↦ done ((minus_one, none), st₁)
      | some a ↦ do
        (x, st₂) ← begin lib condition a st₁
        if x == 0
            then done ((0, some a), st₂)
            else (do (_, st₃) ← free a st₂; done ((minus_one, none), st₃))
    ]

  unfoldable pub bf_sys_cond_del : ℕ → S (ℕ × Option ℕ)
  unfolding finish free
  bf_sys_cond_del c st = do
    (x, st₁) ← finish lib condition c st
    if x == 0
        then (do (_, st₂) ← free c st₁; done ((0, some 0), st₂))
        else done ((minus_one, none), st₁)

  unfoldable pub bf_sys_sem_init : S (ℕ × Option ℕ)
  unfolding bf_sys_malloc begin free
  bf_sys_sem_init st = do
    (s, st₁) ← bf_sys_malloc lib st
    elim s [
      | none ↦ done ((minus_one, none), st₁)
      | some a ↦ do
        (x, st₂) ← begin lib semaphore a st₁
        if x == 0
            then done ((0, some a), st₂)
            else (do (_, st₃) ← free a st₂; done ((minus_one, some 0), st₃))
    ]

  unfoldable pub bf_sys_sem_destroy : ℕ → S (ℕ × Option ℕ)
  unfolding finish free
  bf_sys_sem_destroy sem st = do
    (x, st₁) ← finish lib semaphore sem st
    if x == 0
        then (do (_, st₂) ← free sem st₁; done ((0, some 0), st₂))
        else done ((minus_one, none), st₁)

  unfoldable pub bf_sys_rwlock_init : S (ℕ × Option ℕ)
  unfolding bf_sys_malloc begin
  bf_sys_rwlock_init st = do
    (m, st₁) ← bf_sys_malloc lib st
    elim m [
      | none ↦ done ((minus_one, some 0), st₁)
      | some a ↦ do (x, st₂) ← begin lib rwlock a st₁; done ((x, some a), st₂)
    ]

  -- The handle keeps its value.
  unfoldable pub bf_sys_rwlock_del : ℕ → S (ℕ × Option ℕ)
  unfolding finish free
  bf_sys_rwlock_del bf_rwlock st = do
    (err, st₁) ← finish lib rwlock bf_rwlock st
    if err == 0
        then (do (_, st₂) ← free bf_rwlock st₁; done ((0, none), st₂))
        else done ((err, none), st₁)
