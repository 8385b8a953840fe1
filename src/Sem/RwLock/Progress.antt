-- ===== src/Sem/RwLock/Progress.antt =====
-- If no wait fails and no thread starts a new call, the calls that have begun come to their end. A
-- thread that has the lock gives it back.
use target_syslibs.Base.{
  ℕ, zero, suc, ◌+◌, ◌*◌, ◌≤◌, ◌<◌, ◌≡◌, inl, inr, true, false, arith, Bool-cases,
}
use target_syslibs.Base.Threads.{assign, tally, tally-assign}
use target_syslibs.Sem.RwLock.{
  Thread, idle, reading, writing, r_asleep, r_woken, w_asleep, w_woken, wake_reader, Signal, Wakes,
  no_signal, woke_one, woke_none, woke_all, rdlock_resume, wrlock_resume, busy_for_reader,
  busy_for_writer, System, Step, rd_call, wr_call, rd_resume, wr_resume, rd_unlock, wr_unlock,
  spurious_reader, spurious_writer,
}

-- Steps that go on with a call that has begun: neither a new call nor a spurious wake-up.
abbrev pub IsOwn : {n : ℕ} {s t : System} → Step false n s t → Type 0
IsOwn (rd_call _ _ _) = ⊥
IsOwn (wr_call _ _ _) = ⊥
IsOwn (spurious_reader _ _ _) = ⊥
IsOwn (spurious_writer _ _ _) = ⊥
IsOwn _ = Unit

-- `k` such steps in a row.
pub data Drain (n : ℕ) : ℕ → System → System → Type 0 where
  stop : {s : System} → Drain n 0 s s
  go :
      {k : ℕ} {s t u : System} (st : Step false n s t)
      → IsOwn st
      → Drain n k t u
      → Drain n (suc k) s u

-- An unlocking part costs more than all threads that it wakes gain.
abbrev pub weight : ℕ → Thread → ℕ
weight m idle = 0
weight m reading = m + 1
weight m writing = m + 1
weight m r_asleep = m + 2
weight m w_asleep = m + 2
weight m r_woken = m + 3
weight m w_woken = m + 3

abbrev pub work : (n : ℕ) → (ℕ → Thread) → ℕ
work n pc = tally (weight n) n pc

tally-wake_reader :
    (m n : ℕ) (pc : ℕ → Thread)
    → tally (weight m) n (λ j. wake_reader (pc j)) ≤ tally (weight m) n pc + n
unfolding tally
tally-wake_reader m zero pc = omega arith
tally-wake_reader m (suc n) pc = let rest = tally-wake_reader m n pc in ground (arith, rest)

pub tally-weight : (m n : ℕ) (pc : ℕ → Thread) → tally (weight m) n pc ≤ n * (m + 3)
unfolding tally
tally-weight m zero pc = omega arith
tally-weight m (suc n) pc = let rest = tally-weight m n pc in ground (arith, rest)

module _ {n : ℕ} where
  Wakes-work : {pc pc' : ℕ → Thread} {g : Signal} → Wakes n pc g pc' → work n pc' ≤ work n pc + n
  Wakes-work no_signal = omega arith
  Wakes-work {pc} (woke_one j hj e) =
      omega (arith, rw e at (tally-assign (weight n) n pc j w_woken hj))
  Wakes-work (woke_none none) = omega arith
  Wakes-work {pc} woke_all = tally-wake_reader n n pc

  move-work :
      (pc : ℕ → Thread) (i : ℕ) (a b : Thread)
      → i < n
      → pc i ≡ a
      → work n (assign pc i b) + weight n a ≡ work n pc + weight n b
  move-work pc i a b hi e = rw e at (tally-assign (weight n) n pc i b hi)

  -- Each own step leaves less to do.
  pub own-work : {s t : System} (st : Step false n s t) → IsOwn st → work n t.pc < work n s.pc
  unfolding rdlock_resume wrlock_resume
  own-work (rd_resume i true hi e f) own = absurd (ground arith)
  own-work {s} (rd_resume i false hi e f) own = elim (Bool-cases (busy_for_reader s.lock)) [
    | inl busy ↦ rw busy (omega (arith, move-work s.pc i r_woken r_asleep hi e))
    | inr free ↦ rw free (omega (arith, move-work s.pc i r_woken reading hi e))
  ]
  own-work (wr_resume i true hi e f) own = absurd (ground arith)
  own-work {s} (wr_resume i false hi e f) own = elim (Bool-cases (busy_for_writer s.lock)) [
    | inl busy ↦ rw busy (omega (arith, move-work s.pc i w_woken w_asleep hi e))
    | inr free ↦ rw free (omega (arith, move-work s.pc i w_woken writing hi e))
  ]
  own-work {s} (rd_unlock i pc' hi e w) own =
      omega (arith, move-work s.pc i reading idle hi e, Wakes-work w)
  own-work {s} (wr_unlock i pc' hi e w) own =
      omega (arith, move-work s.pc i writing idle hi e, Wakes-work w)
  own-work (rd_call _ _ _) own = absurd own
  own-work (wr_call _ _ _) own = absurd own
  own-work (spurious_reader _ _ _) own = absurd own
  own-work (spurious_writer _ _ _) own = absurd own

  pub Drain-work : {k : ℕ} {s t : System} → Drain n k s t → k + work n t.pc ≤ work n s.pc
  Drain-work stop = omega arith
  Drain-work (go st own rest) = omega (arith, own-work st own, Drain-work rest)
