-- ===== src/Sem/Locks/Semaphores.antt =====
-- What the semaphores of the layer promise to one thread.
use target_syslibs.Base.{
  ℕ, suc, ◌+◌, ◌-◌, ◌≤◌, ◌≡◌, refl, List, [], ◌∷◌, if◌then◌else◌, ◌==◌, dec_lt, arith,
}
use target_syslibs.Base.Outcome.{Outcome, done, ◌>>=◌}
use target_syslibs.Sem.Locks.{Threads, bf_sys_sem_trywait, bf_sys_sem_post}
use target_syslibs.Sem.Locks.Posix.{sem_value_max, View, IsPosix}

-- What one thread asks of a semaphore.
pub data Request : Type 0 where
  post trywait : Request

module _ {W : Type 0} (t : Threads W) (sem : ℕ) where
  -- The calls in order, and how many of the waits returned 0.
  unfoldable pub serve : List Request → W → Outcome (ℕ × W)
  unfolding bf_sys_sem_post bf_sys_sem_trywait
  serve [] w = done (0, w)
  serve (post ∷ qs) w = do (s, w₁) ← bf_sys_sem_post t sem w; serve qs w₁
  serve (trywait ∷ qs) w = do
    (s, w₁) ← bf_sys_sem_trywait t sem w
    (n, w₂) ← serve qs w₁
    done (if s == 0 then suc n else n, w₂)

abbrev posts : List Request → ℕ
posts [] = 0
posts (post ∷ qs) = suc (posts qs)
posts (trywait ∷ qs) = posts qs

-- For any calls of post and trywait, with fewer posts than the value can take: the value after them and
-- the number of waits that returned 0 are together the value before them and the number of posts.
sem_counts :
    {W : Type 0} {t : Threads W} {v : View W}
    → IsPosix t v
    → (sem : ℕ) (qs : List Request) (w : W) → v.value w sem + posts qs ≤ sem_value_max
    → (n : ℕ) × (w' : W) × (serve t sem qs w ≡ done (n, w'))
      × (v.value w' sem + n ≡ v.value w sem + posts qs)
unfolding serve bf_sys_sem_post bf_sys_sem_trywait
sem_counts posix sem [] w room = (0, w, refl, refl)
sem_counts {v} posix sem (post ∷ qs) w room =
    let c = posix.post sem w (omega arith) in
    let (n, w', e, k) = sem_counts posix sem qs c.after (omega (arith, c.value_is)) in
    (n, w', rw (c.returns, e) refl, omega (arith, c.value_is))
sem_counts {v} posix sem (trywait ∷ qs) w room = elim (dec_lt 0 (v.value w sem)) [
  | yes more ↦
      let c = posix.wait_some sem (v.value w sem - 1) w (omega arith) in
      let (n, w', e, k) = sem_counts posix sem qs c.after (omega (arith, c.value_is)) in
      (suc n, w', rw (c.returns, e) refl, omega (arith, c.value_is))
  | no empty ↦
      let (n, w', e, k) = sem_counts posix sem qs w room in
      (n, w', rw (posix.wait_none sem w (omega arith), e) refl, k)
]
