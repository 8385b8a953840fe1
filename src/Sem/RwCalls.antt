-- ===== src/Sem/RwCalls.antt =====
-- The whole of `bf_sys_rw_mutex_lock_rdlock`, `_wrlock`, `_rdunlock` and `_wrunlock`, with the tests
-- of the argument, the results of the threads library and the status that is returned. `none` is a
-- NULL argument.
pub mod Laws
mod Tests
use target_syslibs.Base.{
  ℕ, ◌^◌, Bool, true, false, not, ◌&&◌, Option, none, some, List, [], ◌∷◌, if◌then◌else◌, ◌==◌,
}
use target_syslibs.Base.Outcome.{Outcome, done, blocked, ◌>>=◌}
use target_syslibs.Sem.RwLock.{Lock, positive, next, prev, busy_for_reader, busy_for_writer}
use target_syslibs.Sem.RwInit.{RwLock, einval, first_error}

-- What the threads library answers: the status of locking and unlocking the mutex and of signalling,
-- and for each wait its status and what other threads do to the counters before it returns.
pub record Answers : Type 0 where
  pub lock : ℕ
  pub unlock : ℕ
  pub signal : ℕ
  pub waits : List (ℕ × (Lock → Lock))

abbrev pub counters : RwLock → Lock
counters l = record {
  r_active = l.r_active;
  w_active = l.w_active;
  r_wait = l.r_wait;
  w_wait = l.w_wait;
}

abbrev pub with_counters : RwLock → Lock → RwLock
with_counters l c = record l {
  r_active = c.r_active;
  w_active = c.w_active;
  r_wait = c.r_wait;
  w_wait = c.w_wait;
}

-- `while (busy) { status = pthread_cond_wait (...); if (status != 0) break; }`
unfoldable pub wait_while : (Lock → Bool) → List (ℕ × (Lock → Lock)) → Lock → Outcome (ℕ × Lock)
wait_while busy [] c = if busy c then blocked else done (0, c)
wait_while busy ((status, others) ∷ ws) c =
    let rest = wait_while busy ws (others c) in
    if busy c then (if status == 0 then rest else done (status, others c)) else done (0, c)

unfoldable pub rdlock_body : List (ℕ × (Lock → Lock)) → Lock → Outcome (ℕ × Lock)
unfolding wait_while
rdlock_body ws c = do
  (status, c') ←
      (if busy_for_reader c
        then (do
          (st, d) ← wait_while busy_for_reader ws (record c { r_wait = next c.r_wait })
          done (st, record d { r_wait = prev d.r_wait }))
        else done (0, c))
  done (status, if status == 0 then record c' { r_active = next c'.r_active } else c')

unfoldable pub wrlock_body : List (ℕ × (Lock → Lock)) → Lock → Outcome (ℕ × Lock)
unfolding wait_while
wrlock_body ws c = do
  (status, c') ←
      (if busy_for_writer c
        then (do
          (st, d) ← wait_while busy_for_writer ws (record c { w_wait = next c.w_wait })
          done (st, record d { w_wait = prev d.w_wait }))
        else done (0, c))
  done (status, if status == 0 then record c' { w_active = next c'.w_active } else c')

-- The second component is the status of the signal, 0 if there is none.
unfoldable pub rdunlock_body : (signal : ℕ) → Lock → ℕ × Lock
rdunlock_body signal c =
    let c' = record c { r_active = prev c.r_active } in
    (if c'.r_active == 0 && positive c'.w_wait then signal else 0, c')

unfoldable pub wrunlock_body : (signal : ℕ) → Lock → ℕ × Lock
wrunlock_body signal c =
    let c' = record c { w_active = 0 } in
    (if positive c'.w_wait then signal else if positive c'.r_wait then signal else 0, c')

-- What the four functions do before the mutex is locked and after it is unlocked.
abbrev pub under_mutex :
    Answers → Option RwLock → (Lock → Outcome (ℕ × Lock)) → Outcome (ℕ × Option RwLock)
under_mutex a none body = done (einval, none)
under_mutex a (some l) body =
    if not (l.valid == 1)
    then done (einval, some l)
    else if not (a.lock == 0)
    then done (a.lock, some l)
    else (do
      (status, c) ← body (counters l)
      done (first_error a.unlock status, some (with_counters l c)))

unfoldable pub bf_sys_rw_mutex_lock_rdlock : Answers → Option RwLock → Outcome (ℕ × Option RwLock)
unfolding rdlock_body
bf_sys_rw_mutex_lock_rdlock a l = under_mutex a l (rdlock_body a.waits)

unfoldable pub bf_sys_rw_mutex_lock_wrlock : Answers → Option RwLock → Outcome (ℕ × Option RwLock)
unfolding wrlock_body
bf_sys_rw_mutex_lock_wrlock a l = under_mutex a l (wrlock_body a.waits)

unfoldable pub bf_sys_rw_mutex_lock_rdunlock : Answers → Option RwLock → Outcome (ℕ × Option RwLock)
unfolding rdunlock_body
bf_sys_rw_mutex_lock_rdunlock a l = under_mutex a l (λ c. done (rdunlock_body a.signal c))

unfoldable pub bf_sys_rw_mutex_lock_wrunlock : Answers → Option RwLock → Outcome (ℕ × Option RwLock)
unfolding wrunlock_body
bf_sys_rw_mutex_lock_wrunlock a l = under_mutex a l (λ c. done (wrunlock_body a.signal c))
