-- ===== src/Sem/RwLock/Safety.antt =====
-- What the lock promises to readers and writers in every reachable state, whether or not waits fail.
use target_syslibs.Base.{ℕ, ◌+◌, ◌^◌, ◌≤◌, ◌<◌, ◌≡◌, ◌≢◌, Bool, ℕ_discrete, arith}
use target_syslibs.Base.Threads.{tally, le-tally, pair-le-tally}
use target_syslibs.Sem.RwLock.{reading, writing, System, Reach}
use target_syslibs.Sem.RwLock.Count.{
  is_reading, is_writing, is_r_asleep, is_r_woken, is_w_asleep, is_w_woken,
}
use target_syslibs.Sem.RwLock.Inv.{Inv}
use target_syslibs.Sem.RwLock.Moves.{Reach-Inv}

module _ {fails : Bool} {n : ℕ} {s : System} (few : n < 2 ^ 31) (r : Reach fails n s) where
  inv : Inv n s.lock s.pc
  inv = Reach-Inv few r

  writer_excludes_readers : (i j : ℕ) → i < n → j < n → s.pc i ≡ writing → s.pc j ≢ reading
  writer_excludes_readers i j hi hj w rd = absurd (
      omega
        (arith, inv.readers, at_j, inv.alone (omega (arith, inv.one_writer, inv.writers, at_i))))
    where
      at_i : 1 ≤ tally is_writing n s.pc
      at_i = rw w at (le-tally is_writing n s.pc i hi)

      at_j : 1 ≤ tally is_reading n s.pc
      at_j = rw rd at (le-tally is_reading n s.pc j hj)

  one_writer : (i j : ℕ) → i < n → j < n → s.pc i ≡ writing → s.pc j ≡ writing → i ≡ j
  one_writer i j hi hj w w' = elim (ℕ_discrete i j) [
    | yes same ↦ same
    | no other ↦
        absurd (omega (arith, inv, rw (w, w') at (pair-le-tally is_writing n s.pc i j hi hj other)))
  ]

  -- Whatever the interleaving of fewer than 2^31 threads, while a thread has the lock for writing no
  -- thread has it for reading and no other thread has it for writing.
  pub writer_alone :
      (i : ℕ)
      → i < n
      → s.pc i ≡ writing
      → ((j : ℕ) → j < n → s.pc j ≢ reading) × ((j : ℕ) → j < n → s.pc j ≡ writing → i ≡ j)
  writer_alone i hi w =
      (λ j hj. writer_excludes_readers i j hi hj w, λ j hj w'. one_writer i j hi hj w w')

  -- Whatever the interleaving of fewer than 2^31 threads, each counter of the lock is the number of
  -- threads that read, write, wait to read and wait to write.
  pub counters :
      (s.lock.r_active ≡ tally is_reading n s.pc)
      × (s.lock.w_active ≡ tally is_writing n s.pc)
      × (s.lock.r_wait ≡ tally is_r_asleep n s.pc + tally is_r_woken n s.pc)
      × (s.lock.w_wait ≡ tally is_w_asleep n s.pc + tally is_w_woken n s.pc)
  counters = (inv.readers, inv.writers, inv.r_waiters, inv.w_waiters)
