-- ===== src/Sem/RwCalls/Tests.antt =====
-- The theorems on the whole calls at a concrete lock.
use target_syslibs.Base.{◌≡◌, some, [], ◌∷◌, refl}
use target_syslibs.Base.Outcome.{done, ◌>>=◌}
use target_syslibs.Sem.RwLock.{
  rdlock_enter, wrlock_enter, rdlock_resume, wrlock_resume, rdunlock_part, wrunlock_part,
}
use target_syslibs.Sem.RwInit.{RwLock, first_error}
use target_syslibs.Sem.RwCalls.{
  Answers, counters, with_counters, bf_sys_rw_mutex_lock_rdlock, bf_sys_rw_mutex_lock_wrlock,
  bf_sys_rw_mutex_lock_rdunlock, bf_sys_rw_mutex_lock_wrunlock,
}
use target_syslibs.Sem.RwCalls.Laws.{by_parts, signalled, calls_by_parts}

abbrev free : RwLock
free = record {
  mutex = 64;
  read = 96;
  write = 128;
  r_active = 0;
  w_active = 0;
  r_wait = 0;
  w_wait = 0;
  valid = 1;
}

abbrev written : RwLock
written = record free { w_active = 1 }

-- The writer unlocks during the second wait.
abbrev works : Answers
works = record {
  lock = 0;
  unlock = 0;
  signal = 0;
  waits = (0, λ c. c) ∷ (0, λ c. record c { w_active = 0 }) ∷ [];
}

rdlock_waits :
    bf_sys_rw_mutex_lock_rdlock works (some written) ≡ done (0, some (record free { r_active = 1 }))
unfolding bf_sys_rw_mutex_lock_rdlock
rdlock_waits = refl

calls_by_parts_example :
    (bf_sys_rw_mutex_lock_rdlock works (some written) ≡ (do
      (st, c) ← by_parts rdlock_resume works.waits (rdlock_enter (counters written))
      done (first_error 0 st, some (with_counters written c))))
    × (bf_sys_rw_mutex_lock_wrlock works (some written) ≡ (do
      (st, c) ← by_parts wrlock_resume works.waits (wrlock_enter (counters written))
      done (first_error 0 st, some (with_counters written c))))
    × (bf_sys_rw_mutex_lock_rdunlock works (some written) ≡ (
        let (g, c) = rdunlock_part (counters written) in
        done (first_error 0 (signalled works g), some (with_counters written c))))
    × (bf_sys_rw_mutex_lock_wrunlock works (some written) ≡ (
        let (g, c) = wrunlock_part (counters written) in
        done (first_error 0 (signalled works g), some (with_counters written c))))
calls_by_parts_example = calls_by_parts works written refl refl
