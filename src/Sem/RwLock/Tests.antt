-- ===== src/Sem/RwLock/Tests.antt =====
-- The theorems on the lock at a concrete run of three threads.
use target_syslibs.Base.{ℕ, ◌+◌, ◌≤◌, ◌<◌, ◌≡◌, ◌≢◌, inl, refl, true, false, [], ◌∷◌, arith}
use target_syslibs.Base.Threads.{tally}
use target_syslibs.Sem.RwLock.{
  idle, reading, writing, r_asleep, w_woken, System, Reach, granted, rdlock_enter, wrlock_enter,
  rd_call, wrlock_resume, wrunlock_part,
}
use target_syslibs.Sem.RwLock.Count.{
  is_reading, is_writing, is_r_asleep, is_r_woken, is_w_asleep, is_w_woken,
}
use target_syslibs.Sem.RwLock.Run.{Run, run, to_read, to_write}
use target_syslibs.Sem.RwLock.Safety.{writer_alone, counters}
use target_syslibs.Sem.RwLock.Wakeup.{no_lost_wakeup}
use target_syslibs.Sem.RwLock.Progress.{Drain}
use target_syslibs.Sem.RwLock.Drained.{Onward, Finished, drains}
use target_syslibs.Sem.RwLock.Priority.{here, onward, no_new_readers}
use target_syslibs.Sem.RwLock.Failing.{lost_wakeup}

-- Thread 0 writes, thread 1 waits to write and thread 2 waits to read.
abbrev busy : Run 3
busy = run 3 ((to_write, 0) ∷ (to_write, 1) ∷ (to_read, 2) ∷ [])

-- Thread 0 has unlocked.
abbrev handed_over : Run 3
handed_over = run 3 ((to_write, 0) ∷ (to_write, 1) ∷ (to_read, 2) ∷ (to_read, 0) ∷ [])

writer_alone_example :
    ((j : ℕ) → j < 3 → busy.last.pc j ≢ reading)
    × ((j : ℕ) → j < 3 → busy.last.pc j ≡ writing → 0 ≡ j)
unfolding run wrlock_enter rdlock_enter
writer_alone_example = writer_alone (omega arith) busy.reach 0 (omega arith) refl

counters_example :
    (busy.last.lock.r_active ≡ tally is_reading 3 busy.last.pc)
    × (busy.last.lock.w_active ≡ tally is_writing 3 busy.last.pc)
    × (busy.last.lock.r_wait ≡ tally is_r_asleep 3 busy.last.pc + tally is_r_woken 3 busy.last.pc)
    × (busy.last.lock.w_wait ≡ tally is_w_asleep 3 busy.last.pc + tally is_w_woken 3 busy.last.pc)
counters_example = counters (omega arith) busy.reach

no_lost_wakeup_example :
    (j : ℕ) × (j < 3)
    × (handed_over.last.pc j ≡ w_woken)
    × ((wrlock_resume false handed_over.last.lock).0 ≡ granted)
unfolding run wrlock_enter rdlock_enter wrunlock_part
no_lost_wakeup_example =
    no_lost_wakeup (omega arith) handed_over.reach 2 (omega arith) (inl refl) no_reader no_writer
  where
    no_reader : (k : ℕ) → k < 3 → handed_over.last.pc k ≢ reading
    no_reader k h e = ground arith

    no_writer : (k : ℕ) → k < 3 → handed_over.last.pc k ≢ writing
    no_writer k h e = ground arith

drains_example :
    ((k : ℕ) × (t : System) × (k ≤ 18) × Drain 3 k busy.last t × Finished 3 t)
    × ((k : ℕ) (t : System) → Drain 3 k busy.last t → ¬ Onward 3 t → Finished 3 t)
drains_example = drains (omega arith) busy.reach

lost_wakeup_example :
    (s : System) × Reach true 3 s
    × (s.pc 2 ≡ r_asleep)
    × ((j : ℕ) → j ≢ 2 → s.pc j ≡ idle)
    × (s.lock.r_active ≡ 0)
    × (s.lock.w_active ≡ 0)
    × (s.lock.w_wait ≡ 0)
lost_wakeup_example = lost_wakeup 3 (omega arith)

-- Thread 0 reads, thread 1 waits to write and thread 2 asks to read.
abbrev reader_first : Run 3
reader_first = run 3 ((to_read, 0) ∷ (to_write, 1) ∷ [])

no_new_readers_example : reader_first.last.pc 0 ≡ reading
unfolding run rdlock_enter wrlock_enter
no_new_readers_example =
    no_new_readers (omega arith) 1 0 (omega arith) reader_first.reach
      (onward here (inl refl) (rd_call 2 (omega arith) refl)) refl
