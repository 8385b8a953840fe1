-- ===== src/Sem/Objects/Laws.antt =====
-- A successful init followed by a delete gives back what it took; a failing init does not always.
use target_syslibs.Base.{ℕ, ◌≡◌, ◌≢◌, refl, true, Option, none, some, ◌∷◌, eq→==, arith}
use target_syslibs.Base.Outcome.{done}
use target_syslibs.Sem.Store.{
  Store, Kind, checked_mutex, recursive_mutex, condition, semaphore, rwlock, Library, IsLawful,
  minus_one, S, is_in,
}
use target_syslibs.Sem.Objects.{
  bf_sys_mutex_init, bf_sys_mutex_del, bf_sys_rmutex_init, bf_sys_rmutex_del, bf_sys_cond_init,
  bf_sys_cond_del, bf_sys_sem_init, bf_sys_sem_destroy, bf_sys_rwlock_init, bf_sys_rwlock_del,
}

-- The functions of an object that is made in a block of its own.
pub data Object : Type 0 where
  mutex rmutex cond sem read_write : Object

abbrev pub kind : Object → Kind
kind mutex = checked_mutex
kind rmutex = recursive_mutex
kind cond = condition
kind sem = semaphore
kind read_write = rwlock

abbrev pub make : Object → Library → S (ℕ × Option ℕ)
make mutex = bf_sys_mutex_init
make rmutex = bf_sys_rmutex_init
make cond = bf_sys_cond_init
make sem = bf_sys_sem_init
make read_write = bf_sys_rwlock_init

abbrev pub delete : Object → Library → ℕ → S (ℕ × Option ℕ)
delete mutex = bf_sys_mutex_del
delete rmutex = bf_sys_rmutex_del
delete cond = bf_sys_cond_del
delete sem = bf_sys_sem_destroy
delete read_write = bf_sys_rwlock_del

-- The store with an object at `a`.
abbrev pub with_object : Store → ℕ → Store
with_object st a = record { heap = a ∷ st.heap; live = a ∷ st.live }

abbrev pub with_block : Store → ℕ → Store
with_block st a = record st { heap = a ∷ st.heap }

module _ {lib : Library} (lawful : IsLawful lib) (st : Store) (a : ℕ)
    (given : lib.malloc st ≡ some a) where
  make-done :
      (o : Object)
      → lib.init (kind o) (with_block st a) a ≡ 0
      → make o lib st ≡ done ((0, some a), with_object st a)
  unfolding bf_sys_mutex_init bf_sys_rmutex_init bf_sys_cond_init bf_sys_sem_init bf_sys_rwlock_init
  make-done mutex ok = ground arith
  make-done rmutex ok = ground arith
  make-done cond ok = ground arith
  make-done sem ok = ground arith
  make-done read_write ok = ground arith

  there : is_in a (with_object st a).live ≡ true
  there = rw (eq→== a a refl) refl

  -- The lock for readers and writers keeps its pointer, the other handles become NULL.
  abbrev handle_after : Object → Option ℕ
  handle_after read_write = none
  handle_after o = some 0

  delete-done : (o : Object) → delete o lib a (with_object st a) ≡ done ((0, handle_after o), st)
  unfolding bf_sys_mutex_del bf_sys_rmutex_del bf_sys_cond_del bf_sys_sem_destroy bf_sys_rwlock_del
  delete-done mutex =
      ground (
        arith,
        lawful.destroyed checked_mutex (with_object st a) a there,
        lawful.not_null st a given,
      )
  delete-done rmutex = ground (
    arith,
    lawful.destroyed recursive_mutex (with_object st a) a there,
    lawful.not_null st a given,
  )
  delete-done cond =
      ground
        (arith, lawful.destroyed condition (with_object st a) a there, lawful.not_null st a given)
  delete-done sem =
      ground
        (arith, lawful.destroyed semaphore (with_object st a) a there, lawful.not_null st a given)
  delete-done read_write =
      ground (arith, lawful.destroyed rwlock (with_object st a) a there, lawful.not_null st a given)

  -- With a lawful library, if the block is given and the object is initialised, the init function of
  -- each of the five objects returns 0 and the handle, and the delete function of that handle then
  -- returns 0 and leaves the heap and the objects as they were before.
  pub delete-make :
      (o : Object)
      → lib.init (kind o) (with_block st a) a ≡ 0
      → (make o lib st ≡ done ((0, some a), with_object st a))
        × (delete o lib a (with_object st a) ≡ done ((0, handle_after o), st))
  delete-make o ok = (make-done o ok, delete-done o)

  -- What is left after an init that fails: the two that free their block, and the three that do not.
  abbrev after_failure : Object → Store
  after_failure cond = st
  after_failure sem = st
  after_failure o = with_block st a

  abbrev failure_result : Object → ℕ → ℕ × Option ℕ
  failure_result cond x = (minus_one, none)
  failure_result sem x = (minus_one, some 0)
  failure_result o x = (x, some a)

  -- With a lawful library, if the block is given but the object cannot be initialised, the init
  -- function returns an error; for a condition and a semaphore the block is freed, for a mutex, a
  -- recursive mutex and a lock for readers and writers it stays in the heap.
  make-failed :
      (o : Object) (x : ℕ)
      → lib.init (kind o) (with_block st a) a ≡ x
      → x ≢ 0
      → make o lib st ≡ done (failure_result o x, after_failure o)
  unfolding bf_sys_mutex_init bf_sys_rmutex_init bf_sys_cond_init bf_sys_sem_init bf_sys_rwlock_init
  make-failed mutex x e bad = ground (arith, lawful.not_null st a given)
  make-failed rmutex x e bad = ground (arith, lawful.not_null st a given)
  make-failed cond x e bad = ground (arith, lawful.not_null st a given)
  make-failed sem x e bad = ground (arith, lawful.not_null st a given)
  make-failed read_write x e bad = ground (arith, lawful.not_null st a given)
