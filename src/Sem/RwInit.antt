-- ===== src/Sem/RwInit.antt =====
-- `bf_sys_rw_mutex_lock_init` and `bf_sys_rw_mutex_lock_del`. `none` is a NULL argument.
pub mod Ready
pub mod Laws
pub mod Whole
use target_syslibs.Base.{
  ℕ, ◌+◌, ◌-◌, ◌^◌, Bool, true, false, not, ◌||◌, Option, none, some, if◌then◌else◌, ◌==◌,
}
use target_syslibs.Base.Outcome.{Outcome, done, ◌>>=◌}
use target_syslibs.Sem.RwLock.{positive}
use target_syslibs.Sem.Store.{
  Store, Kind, plain_mutex, condition, Library, minus_one, S, bf_sys_malloc, free, begin, finish,
}

pub record RwLock : Type 0 where
  pub mutex : ℕ
  pub read : ℕ
  pub write : ℕ
  pub r_active : ℕ
  pub w_active : ℕ
  pub r_wait : ℕ
  pub w_wait : ℕ
  pub valid : ℕ

abbrev pub einval : ℕ
einval = 22

abbrev pub ebusy : ℕ
ebusy = 16

-- `a != 0 ? a : b`
abbrev pub first_error : ℕ → ℕ → ℕ
first_error a b = if a == 0 then b else a

module _ (lib : Library) where
  -- From the allocation of the condition for writers on.
  unfoldable pub init_write : RwLock → S (ℕ × RwLock)
  unfolding bf_sys_malloc free begin finish
  init_write l st = do
    (w, st₁) ← bf_sys_malloc lib st
    elim w [
      | none ↦ do
        (status, st₂) ← finish lib plain_mutex l.mutex st₁
        (_, st₃) ← free l.mutex st₂
        (status1, st₄) ← finish lib condition l.read st₃
        (_, st₅) ← free l.read st₄
        done ((first_error status (first_error status1 minus_one), record l { write = 0 }), st₅)
      | some write ↦ do
        (status, st₂) ← begin lib condition write st₁
        if status == 0 then done ((0, record l { write = write; valid = 1 }), st₂) else (do
          (status1, st₃) ← finish lib plain_mutex l.mutex st₂
          (status2, st₄) ← finish lib condition l.read st₃
          (_, st₅) ← free l.mutex st₄
          (_, st₆) ← free l.read st₅
          (_, st₇) ← free write st₆
          done
              ((first_error status1 (first_error status2 status), record l { write = write }), st₇))
    ]

  -- From the allocation of the condition for readers on.
  unfoldable pub init_read : RwLock → S (ℕ × RwLock)
  unfolding init_write
  init_read l st = do
    (r, st₁) ← bf_sys_malloc lib st
    elim r [
      | none ↦ do
        (status, st₂) ← finish lib plain_mutex l.mutex st₁
        (_, st₃) ← free l.mutex st₂
        done ((first_error status minus_one, record l { read = 0 }), st₃)
      | some read ↦ do
        (status, st₂) ← begin lib condition read st₁
        if status == 0 then init_write (record l { read = read }) st₂ else (do
          (status1, st₃) ← finish lib plain_mutex l.mutex st₂
          (_, st₄) ← free l.mutex st₃
          (_, st₅) ← free read st₄
          done ((first_error status1 status, record l { read = read }), st₅))
    ]

  -- From the allocation of the mutex on.
  unfoldable pub init_mutex : RwLock → S (ℕ × RwLock)
  unfolding init_read
  init_mutex l st = do
    (m, st₁) ← bf_sys_malloc lib st
    elim m [
      | none ↦ done ((minus_one, record l { mutex = 0 }), st₁)
      | some mutex ↦ do
        (status, st₂) ← begin lib plain_mutex mutex st₁
        if status == 0
            then init_read (record l { mutex = mutex }) st₂
            else (do (_, st₃) ← free mutex st₂; done ((status, record l { mutex = mutex }), st₃))
    ]

  unfoldable pub bf_sys_rw_mutex_lock_init : Option RwLock → S (ℕ × Option RwLock)
  unfolding init_mutex
  bf_sys_rw_mutex_lock_init none st = done ((einval, none), st)
  bf_sys_rw_mutex_lock_init (some l) st = if l.valid == 1 then done ((ebusy, some l), st) else (do
    ((status, l'), st') ←
        init_mutex (record l { r_active = 0; w_active = 0; r_wait = 0; w_wait = 0 }) st
    done ((status, some l'), st'))

  -- From the end of the test for threads on: the objects are destroyed and their blocks freed.
  unfoldable pub destroy_objects : RwLock → S ℕ
  unfolding free finish
  destroy_objects l st = do
    (status, st₁) ← finish lib plain_mutex l.mutex st
    (_, st₂) ← free l.mutex st₁
    (status1, st₃) ← finish lib condition l.read st₂
    (_, st₄) ← free l.read st₃
    (status2, st₅) ← finish lib condition l.write st₄
    (_, st₆) ← free l.write st₅
    done (first_error status (first_error status1 status2), st₆)

  -- `locked` and `unlocked` are the results of the calls of `pthread_mutex_lock` and
  -- `pthread_mutex_unlock`.
  unfoldable pub bf_sys_rw_mutex_lock_del :
      (locked unlocked : ℕ) → Option RwLock → S (ℕ × Option RwLock)
  unfolding destroy_objects
  bf_sys_rw_mutex_lock_del locked unlocked none st = done ((einval, none), st)
  bf_sys_rw_mutex_lock_del locked unlocked (some l) st =
      if not (l.valid == 1)
      then done ((einval, some l), st)
      else if not (locked == 0)
      then done ((locked, some l), st)
      else if positive l.r_active || positive l.w_active
      then done ((first_error unlocked ebusy, some l), st)
      else if positive l.r_wait || positive l.w_wait
      then done ((first_error unlocked ebusy, some l), st)
      else if not (unlocked == 0)
      then done ((unlocked, some (record l { valid = 0 })), st)
      else (do
        (status, st') ← destroy_objects (record l { valid = 0 }) st
        done ((status, some (record l { valid = 0 })), st'))
