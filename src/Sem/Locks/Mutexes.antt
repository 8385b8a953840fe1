-- ===== src/Sem/Locks/Mutexes.antt =====
-- What the mutexes of the layer promise to one thread.
use target_syslibs.Base.{ℕ, ◌≡◌, refl, ◌∙◌, none, List, [], ◌∷◌}
use target_syslibs.Base.Outcome.{Outcome, done, ◌>>=◌}
use target_syslibs.Sem.Store.{checked_mutex}
use target_syslibs.Sem.Locks.{Threads, bf_sys_mutex_lock, bf_sys_mutex_trylock, bf_sys_mutex_unlock}
use target_syslibs.Sem.Locks.Posix.{eperm, ebusy, edeadlk, View, IsPosix}

-- Calls in order, and their statuses.
unfoldable statuses : {W : Type 0} → List (W → Outcome (ℕ × W)) → W → Outcome (List ℕ × W)
statuses [] w = done ([], w)
statuses (c ∷ cs) w = do (s, w₁) ← c w; (ss, w₂) ← statuses cs w₁; done (s ∷ ss, w₂)

module _ {W : Type 0} {t : Threads W} {v : View W} (posix : IsPosix t v) (i m : ℕ) where
  -- A mutex with error checking, as `bf_sys_mutex_init` makes it, that is free: the thread that locks
  -- it twice gets EDEADLK and not a deadlock, trying gives EBUSY, one unlock frees it, and a further
  -- unlock gives EPERM.
  mutex_relock :
      (w : W)
      → v.kind w m ≡ checked_mutex
      → v.owner w m ≡ none
      → (w' : W) × (statuses
            (bf_sys_mutex_lock t i m
              ∷ bf_sys_mutex_lock t i m
              ∷ bf_sys_mutex_trylock t i m
              ∷ bf_sys_mutex_unlock t i m
              ∷ bf_sys_mutex_unlock t i m
              ∷ [])
            w
          ≡ done (0 ∷ edeadlk ∷ ebusy ∷ 0 ∷ eperm ∷ [], w'))
        × (v.owner w' m ≡ none)
  unfolding statuses bf_sys_mutex_lock bf_sys_mutex_trylock bf_sys_mutex_unlock
  mutex_relock w kind free =
      let l = posix.lock_free i m w free in
      let u = posix.unlock_last i m l.after l.owner_is in
      (
        u.after,
        rw
            (
              l.returns,
              posix.lock_again i m 0 l.after (l.same_kind ∙ kind) l.owner_is,
              posix.trylock_busy i m 0 l.after (l.same_kind ∙ kind) l.owner_is,
              u.returns,
              posix.unlock_free i m u.after (u.same_kind ∙ l.same_kind ∙ kind) u.owner_is,
            )
            refl,
        u.owner_is,
      )
