-- ===== src/Sem/RwInit/Ready.antt =====
-- What a successful init of a `bf_sys_rw_mutex_lock_t` makes, and how its call ends.
use target_syslibs.Base.{ℕ, ◌≡◌, ◌≢◌, false, ◌∷◌, ◌==◌}
use target_syslibs.Base.Outcome.{Outcome, done}
use target_syslibs.Sem.Store.{Store}
use target_syslibs.Sem.RwInit.{RwLock}

-- A lock that is ready, with its objects on top of the store `st`.
pub record IsReady (l : RwLock) (st st' : Store) : Type 0 where
  pub valid : l.valid ≡ 1
  pub r_active : l.r_active ≡ 0
  pub w_active : l.w_active ≡ 0
  pub r_wait : l.r_wait ≡ 0
  pub w_wait : l.w_wait ≡ 0
  pub heap : st'.heap ≡ l.write ∷ l.read ∷ l.mutex ∷ st.heap
  pub live : st'.live ≡ l.write ∷ l.read ∷ l.mutex ∷ st.live
  pub not_null : ((l.mutex == 0) ≡ false) × ((l.read == 0) ≡ false) × ((l.write == 0) ≡ false)
  pub apart :
      ((l.read == l.mutex) ≡ false) × ((l.write == l.mutex) ≡ false) × ((l.write == l.read) ≡ false)

-- The call returns: with 0 and a lock that is ready, or with an error and the store as before.
pub data InitResult (st : Store) : Outcome ((ℕ × RwLock) × Store) → Type 0 where
  ready : {l : RwLock} {st' : Store} → IsReady l st st' → InitResult st (done ((0, l), st'))
  refused : {status : ℕ} {l : RwLock} → status ≢ 0 → InitResult st (done ((status, l), st))
