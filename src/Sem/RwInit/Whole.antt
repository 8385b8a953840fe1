-- ===== src/Sem/RwInit/Whole.antt =====
-- `bf_sys_rw_mutex_lock_init` and `bf_sys_rw_mutex_lock_del` as a whole.
use target_syslibs.Base.{
  ℕ, ◌^◌, ◌<◌, ◌≡◌, ◌≢◌, ◌⊎◌, inl, inr, refl, ap, ◌∙◌, false, Option, none, some, ◌∷◌, ◌==◌, eq→==,
  ne→not-==, arith,
}
use target_syslibs.Base.Outcome.{Outcome, done, ◌>>=◌}
use target_syslibs.Sem.Store.{Store, plain_mutex, condition, Library, IsLawful}
use target_syslibs.Sem.RwInit.{
  RwLock, einval, ebusy, init_mutex, bf_sys_rw_mutex_lock_init, destroy_objects,
  bf_sys_rw_mutex_lock_del,
}
use target_syslibs.Sem.RwInit.Ready.{IsReady, InitResult, ready, refused}
use target_syslibs.Sem.RwInit.Laws.{init_mutex-result}

abbrev zeroed : RwLock → RwLock
zeroed l = record l { r_active = 0; w_active = 0; r_wait = 0; w_wait = 0 }

-- How init ends on a lock that is not valid yet.
pub record Inited (st : Store) (o : Outcome ((ℕ × Option RwLock) × Store)) : Type 0 where
  pub status : ℕ
  pub lock : RwLock
  pub store : Store
  pub returns : o ≡ done ((status, some lock), store)
  pub either : ((status ≡ 0) × IsReady lock st store) ⊎ ((status ≢ 0) × (store ≡ st))

after_mutex :
    (lib : Library) (l : RwLock) (st : Store) (o : Outcome ((ℕ × RwLock) × Store))
    → InitResult st o
    → Inited st (o >>= λ r. done ((r.0.0, some r.0.1), r.1))
after_mutex lib l st _ (ready {l = l'} {st' = st'} is) = record {
  status = 0;
  lock = l';
  store = st';
  returns = refl;
  either = inl (refl, is);
}
after_mutex lib l st _ (refused {status = x} {l = l'} bad) = record {
  status = x;
  lock = l';
  store = st;
  returns = refl;
  either = inr (bad, refl);
}

-- With a lawful library, `bf_sys_rw_mutex_lock_init` of a lock that is not valid returns: either with
-- 0, a valid lock with counters 0 and its three objects in three new blocks, or with an error, and
-- then the heap and the objects are as before.
pub lock_init_lem :
    {lib : Library} (lawful : IsLawful lib) (l : RwLock) (st : Store)
    → l.valid ≢ 1
    → Inited st (bf_sys_rw_mutex_lock_init lib (some l) st)
unfolding bf_sys_rw_mutex_lock_init
lock_init_lem {lib} lawful l st new = rw (ne→not-== l.valid 1 new) (
    after_mutex lib (zeroed l) st (init_mutex lib (zeroed l) st)
      (init_mutex-result lawful st (zeroed l) refl refl refl refl))

module _ {lib : Library} (lawful : IsLawful lib) (l : RwLock) (st : Store) where
  abbrev m : ℕ
  m = l.mutex

  abbrev all : Store
  all = record {
    heap = l.write ∷ l.read ∷ l.mutex ∷ st.heap;
    live = l.write ∷ l.read ∷ l.mutex ∷ st.live;
  }

  destroy_objects-done :
      ((l.mutex == 0) ≡ false) × ((l.read == 0) ≡ false) × ((l.write == 0) ≡ false)
      → ((l.read == l.mutex) ≡ false)
        × ((l.write == l.mutex) ≡ false)
        × ((l.write == l.read) ≡ false)
      → destroy_objects lib l all ≡ done (0, st)
  unfolding destroy_objects
  destroy_objects-done (pm, pr, pw) (rm, wm, wr) = ground (
    arith,
    lawful.destroyed plain_mutex all l.mutex (ground (arith, eq→== l.mutex l.mutex refl)),
    lawful.destroyed condition
        (record { heap = l.write ∷ l.read ∷ st.heap; live = l.write ∷ l.read ∷ st.live }) l.read
        (ground (arith, eq→== l.read l.read refl)),
    lawful.destroyed condition (record { heap = l.write ∷ st.heap; live = l.write ∷ st.live })
        l.write (ground (arith, eq→== l.write l.write refl)),
    eq→== l.mutex l.mutex refl,
    eq→== l.read l.read refl,
    eq→== l.write l.write refl,
  )

  -- With a lawful library, deleting a lock that is ready, where the mutex can be locked and unlocked,
  -- returns 0, clears `valid`, and leaves the heap and the objects as they were before its init.
  pub lock_del-init :
      (st' : Store)
      → IsReady l st st'
      → bf_sys_rw_mutex_lock_del lib 0 0 (some l) st'
        ≡ done ((0, some (record l { valid = 0 })), st)
  unfolding bf_sys_rw_mutex_lock_del
  lock_del-init st' is =
      rw
        (
          store_is,
          is.valid,
          is.r_active,
          is.w_active,
          is.r_wait,
          is.w_wait,
          destroy_objects-done is.not_null is.apart,
        )
        refl
    where
      store_is : st' ≡ all
      store_is =
          ap (λ h. record { heap = h; live = st'.live }) is.heap
          ∙ ap (λ v. record { heap = all.heap; live = v }) is.live

-- What stands in the way of a delete, with the result that it gives when the mutex can be locked and
-- unlocked.
pub data IsKept : Option RwLock → ℕ → Type 0 where
  null_lock : IsKept none einval
  not_valid : {l : RwLock} → l.valid ≢ 1 → IsKept (some l) einval
  in_use :
      {l : RwLock}
      → l.valid ≡ 1
      → (0 < l.r_active) × (l.r_active < 2 ^ 31) ⊎ (0 < l.w_active) × (l.w_active < 2 ^ 31)
      → IsKept (some l) ebusy
  awaited :
      {l : RwLock}
      → l.valid ≡ 1
      → (0 < l.r_wait) × (l.r_wait < 2 ^ 31) ⊎ (0 < l.w_wait) × (l.w_wait < 2 ^ 31)
      → IsKept (some l) ebusy

-- Deleting NULL or a lock that is not valid gives EINVAL, and deleting one that a thread has or waits
-- for gives EBUSY; the lock, the heap and the objects stay as they are.
lock_del-kept :
    (lib : Library) (st : Store) (o : Option RwLock) (status : ℕ)
    → IsKept o status
    → bf_sys_rw_mutex_lock_del lib 0 0 o st ≡ done ((status, o), st)
unfolding bf_sys_rw_mutex_lock_del
lock_del-kept lib st _ _ null_lock = refl
lock_del-kept lib st _ _ (not_valid bad) = rw (ne→not-== _ 1 bad) refl
lock_del-kept lib st _ _ (in_use v (inl h)) = ground arith
lock_del-kept lib st _ _ (in_use v (inr h)) = ground arith
lock_del-kept lib st _ _ (awaited v (inl h)) = ground arith
lock_del-kept lib st _ _ (awaited v (inr h)) = ground arith
