-- ===== src/Sem/RwCalls/Laws.antt =====
-- The whole calls against the parts of Sem/RwLock that run under the mutex, and what a call that is
-- refused leaves.
use target_syslibs.Base.{
  ℕ, ◌≡◌, ◌≢◌, inl, inr, refl, ◌∙◌, Bool, true, false, Bool-cases, Option, none, some, List, [],
  ◌∷◌, if◌then◌else◌, ◌==◌, eq→==, ne→not-==, arith,
}
use target_syslibs.Base.Outcome.{Outcome, done, blocked, ◌>>=◌}
use target_syslibs.Sem.RwLock.{
  Lock, next, prev, busy_for_reader, busy_for_writer, Entry, granted, asleep, failed, rdlock_enter,
  wrlock_enter, rdlock_resume, wrlock_resume, rdunlock_part, wrunlock_part, Signal, silent,
  one_writer, all_readers,
}
use target_syslibs.Sem.RwInit.{RwLock, einval, first_error}
use target_syslibs.Sem.RwCalls.{
  Answers, counters, with_counters, under_mutex, wait_while, rdlock_body, wrlock_body,
  rdunlock_body, wrunlock_body, bf_sys_rw_mutex_lock_rdlock, bf_sys_rw_mutex_lock_wrlock,
  bf_sys_rw_mutex_lock_rdunlock, bf_sys_rw_mutex_lock_wrunlock,
}

-- A call of a locking function as its parts: one before the first wait, one after each wait.
unfoldable pub by_parts :
    (resume : Bool → Lock → Entry × Lock)
    → List (ℕ × (Lock → Lock))
    → Entry × Lock
    → Outcome (ℕ × Lock)
by_parts resume ws (granted, c) = done (0, c)
by_parts resume ws (failed, c) = blocked
by_parts resume [] (asleep, c) = blocked
by_parts resume ((status, others) ∷ ws) (asleep, c) =
    let rest = by_parts resume ws (resume false (others c)) in
    if status == 0 then rest else done (status, (resume true (others c)).1)

rd_wait-by_parts :
    (ws : List (ℕ × (Lock → Lock))) (c : Lock)
    → (do
      (st, d) ← wait_while busy_for_reader ws c
      done (
        st,
        if st == 0
            then record d { r_wait = prev d.r_wait; r_active = next d.r_active }
            else record d { r_wait = prev d.r_wait },
      ))
      ≡ by_parts rdlock_resume ws (rdlock_resume false c)
unfolding wait_while by_parts rdlock_resume
rd_wait-by_parts [] c = elim (Bool-cases (busy_for_reader c)) [
  | inl busy ↦ rw busy refl
  | inr free ↦ rw free refl
]
rd_wait-by_parts ((status, others) ∷ ws) c = elim (Bool-cases (busy_for_reader c)) [
  | inl busy ↦ elim (Bool-cases (status == 0)) [
    | inl ok ↦ rw (busy, ok) (rd_wait-by_parts ws (others c))
    | inr err ↦ rw (busy, err, err) refl
  ]
  | inr free ↦ rw free refl
]

wr_wait-by_parts :
    (ws : List (ℕ × (Lock → Lock))) (c : Lock)
    → (do
      (st, d) ← wait_while busy_for_writer ws c
      done (
        st,
        if st == 0
            then record d { w_wait = prev d.w_wait; w_active = next d.w_active }
            else record d { w_wait = prev d.w_wait },
      ))
      ≡ by_parts wrlock_resume ws (wrlock_resume false c)
unfolding wait_while by_parts wrlock_resume
wr_wait-by_parts [] c = elim (Bool-cases (busy_for_writer c)) [
  | inl busy ↦ rw busy refl
  | inr free ↦ rw free refl
]
wr_wait-by_parts ((status, others) ∷ ws) c = elim (Bool-cases (busy_for_writer c)) [
  | inl busy ↦ elim (Bool-cases (status == 0)) [
    | inl ok ↦ rw (busy, ok) (wr_wait-by_parts ws (others c))
    | inr err ↦ rw (busy, err, err) refl
  ]
  | inr free ↦ rw free refl
]

bind_assoc :
    {A B C : Type 0} (m : Outcome A) (f : A → Outcome B) (g : B → Outcome C)
    → ((m >>= f) >>= g) ≡ (m >>= λ a. f a >>= g)
bind_assoc (done a) f g = refl
bind_assoc Outcome.aborted f g = refl
bind_assoc Outcome.faulted f g = refl
bind_assoc blocked f g = refl

rdlock_body-by_parts :
    (ws : List (ℕ × (Lock → Lock))) (c : Lock)
    → rdlock_body ws c ≡ by_parts rdlock_resume ws (rdlock_enter c)
unfolding rdlock_body rdlock_enter rdlock_resume by_parts
rdlock_body-by_parts ws c = elim (Bool-cases (busy_for_reader c)) [
  | inl busy ↦ rw busy (
      bind_assoc (wait_while busy_for_reader ws (record c { r_wait = next c.r_wait })) _ _
      ∙ rd_wait-by_parts ws (record c { r_wait = next c.r_wait })
      ∙ rw busy refl)
  | inr free ↦ rw free refl
]

wrlock_body-by_parts :
    (ws : List (ℕ × (Lock → Lock))) (c : Lock)
    → wrlock_body ws c ≡ by_parts wrlock_resume ws (wrlock_enter c)
unfolding wrlock_body wrlock_enter wrlock_resume by_parts
wrlock_body-by_parts ws c = elim (Bool-cases (busy_for_writer c)) [
  | inl busy ↦ rw busy (
      bind_assoc (wait_while busy_for_writer ws (record c { w_wait = next c.w_wait })) _ _
      ∙ wr_wait-by_parts ws (record c { w_wait = next c.w_wait })
      ∙ rw busy refl)
  | inr free ↦ rw free refl
]

-- The status of what an unlocking part signals.
abbrev pub signalled : Answers → Signal → ℕ
signalled a silent = 0
signalled a one_writer = a.signal
signalled a all_readers = a.signal

-- Of a lock that is valid and whose mutex can be locked, each call is the parts of Sem/RwLock in order:
-- a locking function the first part and, while a wait returns 0, one part for each wait, and an
-- unlocking function one part. It returns the status of unlocking the mutex or, if that is 0, the
-- status of the wait or of the signal.
pub calls_by_parts :
    (a : Answers) (l : RwLock)
    → l.valid ≡ 1
    → a.lock ≡ 0
    → (bf_sys_rw_mutex_lock_rdlock a (some l) ≡ (do
      (st, c) ← by_parts rdlock_resume a.waits (rdlock_enter (counters l))
      done (first_error a.unlock st, some (with_counters l c))))
      × (bf_sys_rw_mutex_lock_wrlock a (some l) ≡ (do
        (st, c) ← by_parts wrlock_resume a.waits (wrlock_enter (counters l))
        done (first_error a.unlock st, some (with_counters l c))))
      × (bf_sys_rw_mutex_lock_rdunlock a (some l) ≡ (
          let (g, c) = rdunlock_part (counters l) in
          done (first_error a.unlock (signalled a g), some (with_counters l c))))
      × (bf_sys_rw_mutex_lock_wrunlock a (some l) ≡ (
          let (g, c) = wrunlock_part (counters l) in
          done (first_error a.unlock (signalled a g), some (with_counters l c))))
unfolding bf_sys_rw_mutex_lock_rdlock bf_sys_rw_mutex_lock_wrlock bf_sys_rw_mutex_lock_rdunlock
    bf_sys_rw_mutex_lock_wrunlock rdunlock_part wrunlock_part
calls_by_parts a l valid locks = (
  rw (eq→== l.valid 1 valid, eq→== a.lock 0 locks, rdlock_body-by_parts a.waits (counters l)) refl,
  rw (eq→== l.valid 1 valid, eq→== a.lock 0 locks, wrlock_body-by_parts a.waits (counters l)) refl,
  ground arith,
  ground arith,
)

-- The four calls.
pub data Call : Type 0 where
  rdlock wrlock rdunlock wrunlock : Call

abbrev pub call : Call → Answers → Option RwLock → Outcome (ℕ × Option RwLock)
call rdlock = bf_sys_rw_mutex_lock_rdlock
call wrlock = bf_sys_rw_mutex_lock_wrlock
call rdunlock = bf_sys_rw_mutex_lock_rdunlock
call wrunlock = bf_sys_rw_mutex_lock_wrunlock

-- Why a call is refused, with the status.
pub data IsRefused (a : Answers) : Option RwLock → ℕ → Type 0 where
  null : IsRefused a none einval
  invalid : (l : RwLock) → l.valid ≢ 1 → IsRefused a (some l) einval
  not_lockable : (l : RwLock) → l.valid ≡ 1 → a.lock ≢ 0 → IsRefused a (some l) a.lock

under_mutex-refused :
    (a : Answers) (l : Option RwLock) (e : ℕ) (body : Lock → Outcome (ℕ × Lock))
    → IsRefused a l e
    → under_mutex a l body ≡ done (e, l)
under_mutex-refused a l e body null = refl
under_mutex-refused a l e body (invalid k h) = rw (ne→not-== k.valid 1 h) refl
under_mutex-refused a l e body (not_lockable k v h) =
    rw (eq→== k.valid 1 v, ne→not-== a.lock 0 h) refl

-- Each of the four calls returns EINVAL for NULL and for a lock that is not valid, and the status of
-- locking the mutex where that fails, and leaves the lock as it is.
call-refused :
    (k : Call) (a : Answers) (l : Option RwLock) (e : ℕ)
    → IsRefused a l e
    → call k a l ≡ done (e, l)
unfolding bf_sys_rw_mutex_lock_rdlock bf_sys_rw_mutex_lock_wrlock bf_sys_rw_mutex_lock_rdunlock
    bf_sys_rw_mutex_lock_wrunlock
call-refused rdlock a l e r = under_mutex-refused a l e (rdlock_body a.waits) r
call-refused wrlock a l e r = under_mutex-refused a l e (wrlock_body a.waits) r
call-refused rdunlock a l e r = under_mutex-refused a l e (λ c. done (rdunlock_body a.signal c)) r
call-refused wrunlock a l e r = under_mutex-refused a l e (λ c. done (wrunlock_body a.signal c)) r

-- Two calls, one after the other, with the status of each.
abbrev both : Call → Call → Answers → Option RwLock → Outcome (ℕ × ℕ × Option RwLock)
both k k' a l = do (s, m) ← call k a l; (s', m') ← call k' a m; done (s, s', m')

-- On a valid lock that nobody has and no writer waits for, with calls of the library that succeed,
-- locking for reading and then unlocking return 0 and leave the lock as it was, and so do locking for
-- writing and then unlocking.
unlock-lock :
    (a : Answers) (l : RwLock)
    → l.valid ≡ 1
    → a.lock ≡ 0
    → a.unlock ≡ 0
    → a.signal ≡ 0
    → l.w_active ≡ 0
    → l.w_wait ≡ 0
    → l.r_active ≡ 0
    → (both rdlock rdunlock a (some l) ≡ done (0, 0, some l))
      × (both wrlock wrunlock a (some l) ≡ done (0, 0, some l))
unfolding bf_sys_rw_mutex_lock_rdlock bf_sys_rw_mutex_lock_wrlock bf_sys_rw_mutex_lock_rdunlock
    bf_sys_rw_mutex_lock_wrunlock
unlock-lock a l v lk ul sg w ww r = (ground arith, ground arith)
