-- ===== src/Sem/Locks/Toy.antt =====
-- A threads library with what `IsPosix` states, for the tests.
use target_syslibs.Base.{
  ℕ, zero, suc, ◌≡◌, refl, ap, ◌∙◌, Option, none, some, if◌then◌else◌, ◌==◌, ltb, lt→ltb, eq→==,
}
use target_syslibs.Base.Threads.{assign}
use target_syslibs.Base.Outcome.{Outcome, done, blocked}
use target_syslibs.Sem.Store.{Kind, checked_mutex, recursive_mutex, minus_one}
use target_syslibs.Sem.Locks.{Threads}
use target_syslibs.Sem.Locks.Posix.{
  eperm, ebusy, edeadlk, sem_value_max, View, Works, Counts, IsPosix,
}

record World : Type 0 where
  kinds : ℕ → Kind
  owners : ℕ → Option (ℕ × ℕ)
  values : ℕ → ℕ

own : ℕ → Option (ℕ × ℕ) → World → World
own m o w = record w { owners = assign w.owners m o }

-- What locking a mutex of the caller does, by its kind.
relock : Kind → ℕ → ℕ → ℕ → World → Outcome (ℕ × World)
unfolding own
relock recursive_mutex i m k w = done (0, own m (some (i, suc k)) w)
relock checked_mutex i m k w = done (edeadlk, w)
relock _ i m k w = blocked

-- The calls, by the owner of the mutex.
lock_at : Option (ℕ × ℕ) → Kind → ℕ → ℕ → World → Outcome (ℕ × World)
unfolding own relock
lock_at none kind i m w = done (0, own m (some (i, 0)) w)
lock_at (some (j, k)) kind i m w = if j == i then relock kind i m k w else blocked

trylock_at : Option (ℕ × ℕ) → ℕ → ℕ → World → Outcome (ℕ × World)
unfolding own
trylock_at none i m w = done (0, own m (some (i, 0)) w)
trylock_at (some o) i m w = done (ebusy, w)

unlock_at : Option (ℕ × ℕ) → ℕ → World → Outcome (ℕ × World)
unfolding own
unlock_at none m w = done (eperm, w)
unlock_at (some (j, zero)) m w = done (0, own m none w)
unlock_at (some (j, suc d)) m w = done (0, own m (some (j, d)) w)

lock : ℕ → ℕ → World → Outcome (ℕ × World)
unfolding lock_at
lock i m w = lock_at (w.owners m) (w.kinds m) i m w

trylock : ℕ → ℕ → World → Outcome (ℕ × World)
unfolding trylock_at
trylock i m w = trylock_at (w.owners m) i m w

unlock : ℕ → ℕ → World → Outcome (ℕ × World)
unfolding unlock_at
unlock i m w = unlock_at (w.owners m) m w

count : ℕ → ℕ → World → World
count s k w = record w { values = assign w.values s k }

post : ℕ → World → Outcome (ℕ × World)
unfolding count
post s w =
    if ltb (w.values s) sem_value_max
    then done (0, count s (suc (w.values s)) w)
    else done (minus_one, w)

trywait_at : ℕ → ℕ → World → Outcome (ℕ × World)
unfolding count
trywait_at zero s w = done (minus_one, w)
trywait_at (suc k) s w = done (0, count s k w)

trywait : ℕ → World → Outcome (ℕ × World)
unfolding trywait_at
trywait s w = trywait_at (w.values s) s w

abbrev toy : Threads World
toy = record {
  mutex_lock = lock;
  mutex_trylock = trylock;
  mutex_timedlock = λ i m at. lock i m;
  mutex_unlock = unlock;
  cond_wait = λ i c m w. blocked;
  cond_signal = λ c w. done (0, w);
  cond_broadcast = λ c w. done (0, w);
  sem_wait = trywait;
  sem_trywait = trywait;
  sem_post = post;
  rwlock_rdlock = λ i l w. done (0, w);
  rwlock_tryrdlock = λ i l w. done (0, w);
  rwlock_timedrdlock = λ i l at w. done (0, w);
  rwlock_wrlock = λ i l w. done (0, w);
  rwlock_trywrlock = λ i l w. done (0, w);
  rwlock_timedwrlock = λ i l at w. done (0, w);
  rwlock_unlock = λ i l w. done (0, w);
}

abbrev view : View World
view = record { kind = λ w. w.kinds; owner = λ w. w.owners; value = λ w. w.values }

-- A call that sets the owner works.
owned :
    (m : ℕ) (o : Option (ℕ × ℕ)) (w : World) (call : Outcome (ℕ × World))
    → call ≡ done (0, own m o w)
    → Works view m call w o
unfolding own
owned m o w call e = record {
  after = own m o w;
  returns = e;
  owner_is = rw (eq→== m m refl) refl;
  same_kind = refl;
}

counted :
    (s k : ℕ) (w : World) (call : Outcome (ℕ × World))
    → call ≡ done (0, count s k w)
    → Counts view s call k
unfolding count
counted s k w call e = record {
  after = count s k w;
  returns = e;
  value_is = rw (eq→== s s refl) refl;
}

-- Locking again, by the kind.
relocked :
    (i m k : ℕ) (w : World) (c : Kind)
    → w.kinds m ≡ c
    → w.owners m ≡ some (i, k)
    → lock i m w ≡ relock c i m k w
unfolding lock
relocked i m k w c e o =
    ap (λ x. lock_at x (w.kinds m) i m w) o ∙ rw (eq→== i i refl) (ap (λ x. relock x i m k w) e)

toy-IsPosix : IsPosix toy view
unfolding lock trylock unlock post trywait
toy-IsPosix = record {
  lock_free = λ i m w e. owned m _ w _ (ap (λ x. lock_at x (w.kinds m) i m w) e);
  lock_again = λ i m k w c e. relocked i m k w checked_mutex c e;
  trylock_busy = λ i m k w c e. ap (λ x. trylock_at x i m w) e;
  unlock_last = λ i m w e. owned m _ w _ (ap (λ x. unlock_at x m w) e);
  unlock_free = λ i m w c e. ap (λ x. unlock_at x m w) e;
  post = λ s w h. counted s _ w _ (rw (lt→ltb (w.values s) sem_value_max h) refl);
  wait_some = λ s k w e. counted s _ w _ (ap (λ x. trywait_at x s w) e);
  wait_none = λ s w e. ap (λ x. trywait_at x s w) e;
}
