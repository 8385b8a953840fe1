-- ===== src/Sem/RwLock/Priority.antt =====
-- Writers come first: while a writer waits, no reader is let in.
use target_syslibs.Base.{
  ℕ, ◌^◌, ◌<◌, ◌≡◌, ◌≢◌, ◌⊎◌, inl, inr, Bool, true, false, ◌==◌, Bool-cases, arith,
}
use target_syslibs.Base.Threads.{assign, le-tally}
use target_syslibs.Sem.RwLock.{
  Lock, Thread, Entry, idle, reading, r_asleep, r_woken, w_asleep, w_woken, writer, Signal, Wakes,
  no_signal, woke_one, woke_none, woke_all, wake_reader, rdlock_enter, wrlock_enter, rdlock_resume,
  wrlock_resume, busy_for_reader, System, Step, rd_call, wr_call, rd_resume, wr_resume, rd_unlock,
  wr_unlock, spurious_reader, spurious_writer, Reach, later,
}
use target_syslibs.Sem.RwLock.Count.{tally-Bounds, is_w_asleep, is_w_woken}
use target_syslibs.Sem.RwLock.Inv.{Inv}
use target_syslibs.Sem.RwLock.Moves.{Reach-Inv}

abbrev Waits : Thread → Type 0
Waits t = (t ≡ w_asleep) ⊎ (t ≡ w_woken)

-- Steps from `s` on that are made while the thread `i` waits to write.
pub data Meanwhile (fails : Bool) (n i : ℕ) (s : System) : System → Type 0 where
  here : Meanwhile fails n i s s
  onward :
      {t u : System}
      → Meanwhile fails n i s t
      → Waits (t.pc i)
      → Step fails n t u
      → Meanwhile fails n i s u

-- A thread that reads after a change of one thread to something else did so before.
assign-reading :
    (pc : ℕ → Thread) (k j : ℕ) (t : Thread)
    → t ≢ reading
    → assign pc k t j ≡ reading
    → pc j ≡ reading
assign-reading pc k j t other = elim (Bool-cases (k == j)) [
  | inl e ↦ rw e (λ e'. absurd (other e'))
  | inr e ↦ rw e (λ e'. e')
]

writer-reading : (e : Entry) → writer e ≢ reading
writer-reading e h = ground arith

Wakes-reading :
    {n : ℕ} {pc pc' : ℕ → Thread} {g : Signal} (j : ℕ)
    → Wakes n pc g pc'
    → pc' j ≡ reading
    → pc j ≡ reading
Wakes-reading j no_signal e = e
Wakes-reading {pc} j (woke_one k hk at_k) e = assign-reading pc k j w_woken (λ h. ground arith) e
Wakes-reading j (woke_none none_sleeps) e = e
Wakes-reading {pc} j woke_all e = was (pc j) e
  where
    was : (t : Thread) → wake_reader t ≡ reading → t ≡ reading
    was t e = ground arith

must_wait :
    {n : ℕ} {l : Lock} {pc : ℕ → Thread} (few : n < 2 ^ 31) (i : ℕ)
    → i < n
    → Inv n l pc
    → Waits (pc i)
    → busy_for_reader l ≡ true
must_wait {n} {l} {pc} few i hi inv waits = elim waits [
  | inl e ↦ ground (arith, rw e at (le-tally is_w_asleep n pc i hi), tally-Bounds n pc)
  | inr e ↦ ground (arith, rw e at (le-tally is_w_woken n pc i hi), tally-Bounds n pc)
]

module _ {fails : Bool} {n : ℕ} (few : n < 2 ^ 31) (i j : ℕ) (hi : i < n) where
  Step-reading :
      {s t : System}
      → busy_for_reader s.lock ≡ true
      → Step fails n s t
      → t.pc j ≡ reading
      → s.pc j ≡ reading
  unfolding rdlock_enter rdlock_resume
  Step-reading {s} busy (rd_call k hk e) now =
      assign-reading s.pc k j r_asleep (λ h. ground arith) (rw busy at now)
  Step-reading {s} busy (wr_call k hk e) now =
      assign-reading s.pc k j (writer (wrlock_enter s.lock).0) (writer-reading _) now
  Step-reading {s} busy (rd_resume k true hk e ok) now =
      assign-reading s.pc k j idle (λ h. ground arith) now
  Step-reading {s} busy (rd_resume k false hk e ok) now =
      assign-reading s.pc k j r_asleep (λ h. ground arith) (rw busy at now)
  Step-reading {s} busy (wr_resume k error hk e ok) now =
      assign-reading s.pc k j (writer (wrlock_resume error s.lock).0) (writer-reading _) now
  Step-reading {s} busy (rd_unlock k pc' hk e w) now =
      assign-reading s.pc k j idle (λ h. ground arith) (Wakes-reading j w now)
  Step-reading {s} busy (wr_unlock k pc' hk e w) now =
      assign-reading s.pc k j idle (λ h. ground arith) (Wakes-reading j w now)
  Step-reading {s} busy (spurious_reader k hk e) now =
      assign-reading s.pc k j r_woken (λ h. ground arith) now
  Step-reading {s} busy (spurious_writer k hk e) now =
      assign-reading s.pc k j w_woken (λ h. ground arith) now

  Meanwhile-Reach : {s u : System} → Reach fails n s → Meanwhile fails n i s u → Reach fails n u
  Meanwhile-Reach r here = r
  Meanwhile-Reach r (onward before waits step) = later (Meanwhile-Reach r before) step

  -- Whatever fewer than 2^31 threads do in the meantime: as long as a thread waits to write, only
  -- those have the lock for reading that have had it since before.
  pub no_new_readers :
      {s u : System}
      → Reach fails n s
      → Meanwhile fails n i s u
      → u.pc j ≡ reading
      → s.pc j ≡ reading
  no_new_readers r here now = now
  no_new_readers r (onward before waits step) now =
      no_new_readers r before (
        Step-reading (must_wait few i hi (Reach-Inv few (Meanwhile-Reach r before)) waits) step now)
