-- ===== src/Sem/RwLock/Wakeup.antt =====
-- If no wait fails, a lock that is free is on its way to a waiting thread.
use target_syslibs.Base.{ℕ, ◌+◌, ◌^◌, ◌<◌, ◌≡◌, ◌≢◌, ◌⊎◌, inl, inr, false, dec_lt, arith}
use target_syslibs.Base.Threads.{tally, tally-pos, le-tally}
use target_syslibs.Sem.RwLock.{
  Thread, reading, writing, r_asleep, w_asleep, w_woken, System, Reach, granted, wrlock_resume,
}
use target_syslibs.Sem.RwLock.Count.{is_reading, is_writing, is_r_asleep, is_w_asleep, is_w_woken}
use target_syslibs.Sem.RwLock.Inv.{Inv}
use target_syslibs.Sem.RwLock.Moves.{Reach-Inv}
use target_syslibs.Sem.RwLock.Wake.{Awake, Reach-Awake}

none_there :
    (w : Thread → ℕ) (a : Thread)
    → ((t : Thread) → 0 < w t → t ≡ a)
    → (n : ℕ) (pc : ℕ → Thread) → ((j : ℕ) → j < n → pc j ≢ a)
    → tally w n pc ≡ 0
none_there w a only n pc none = elim (dec_lt 0 (tally w n pc)) [
  | yes some ↦ let (j, hj, pos) = tally-pos w n pc some in absurd (none j hj (only (pc j) pos))
  | no zero_sum ↦ omega arith
]

reading_of : (t : Thread) → 0 < is_reading t → t ≡ reading
reading_of t h = ground arith

writing_of : (t : Thread) → 0 < is_writing t → t ≡ writing
writing_of t h = ground arith

woken_of : (t : Thread) → 0 < is_w_woken t → t ≡ w_woken
woken_of t h = ground arith

-- With fewer than 2^31 threads and no failing wait: if no thread has the lock and some thread sleeps
-- for it, then a writer has been woken, and its next part is granted the lock.
pub no_lost_wakeup :
    {n : ℕ} {s : System}
    → n < 2 ^ 31
    → Reach false n s
    → (i : ℕ) → i < n
    → (s.pc i ≡ r_asleep) ⊎ (s.pc i ≡ w_asleep)
    → ((k : ℕ) → k < n → s.pc k ≢ reading)
    → ((k : ℕ) → k < n → s.pc k ≢ writing)
    → (j : ℕ) × (j < n) × (s.pc j ≡ w_woken) × ((wrlock_resume false s.lock).0 ≡ granted)
unfolding wrlock_resume
no_lost_wakeup {n} {s} few r i hi sleeps no_reader no_writer =
    let (j, hj, pos) = tally-pos is_w_woken n s.pc (aw.writers free_w free_r someone) in
    (j, hj, woken_of (s.pc j) pos, ground (arith, free_w, free_r))
  where
    inv : Inv n s.lock s.pc
    inv = Reach-Inv few r

    aw : Awake n s.lock s.pc
    aw = Reach-Awake few r

    free_w : s.lock.w_active ≡ 0
    free_w = omega (arith, inv.writers, none_there is_writing writing writing_of n s.pc no_writer)

    free_r : s.lock.r_active ≡ 0
    free_r = omega (arith, inv.readers, none_there is_reading reading reading_of n s.pc no_reader)

    asleep_counts :
        (s.pc i ≡ r_asleep) ⊎ (s.pc i ≡ w_asleep)
        → 0 < tally is_r_asleep n s.pc + tally is_w_asleep n s.pc
    asleep_counts (inl e) = omega (arith, rw e at (le-tally is_r_asleep n s.pc i hi))
    asleep_counts (inr e) = omega (arith, rw e at (le-tally is_w_asleep n s.pc i hi))

    someone : 0 < s.lock.w_wait
    someone = elim (dec_lt 0 s.lock.w_wait) [
      | yes h ↦ h
      | no h ↦
          absurd
            (omega (arith, asleep_counts sleeps, inv.w_waiters, aw.readers free_w (omega arith)))
    ]
