-- ===== src/Dma/Gate/Safety.antt =====
-- What holds in every reachable state of a pool that several threads use.
use target_syslibs.Base.{
  count, ℕ, ◌+◌, ◌≤◌, ◌<◌, ◌≡◌, ◌≢◌, ℕ_discrete, some, none, ap, List, length, drop, arith,
}
use target_syslibs.Base.Threads.{tally, pair-le-tally, tally_mono}
use target_syslibs.Dma.Gate.{Pc, pop_open, push_open, System, Reach}
use target_syslibs.Dma.Gate.Inv.{critical, storing, held, held_total, Inv}
use target_syslibs.Dma.Gate.Moves.{Reach-Inv, alone}

module _ {n cnt : ℕ} {bufs : List ℕ} {s : System} (full : length bufs ≡ cnt)
    (r : Reach n cnt bufs s) where
  -- Whatever the interleaving, two threads are never both between closing and opening the gate of a
  -- pool that starts with an open gate.
  mutual_exclusion :
      (i j : ℕ) → i < n → j < n → critical (s.pc i) ≡ 1 → critical (s.pc j) ≡ 1 → i ≡ j
  mutual_exclusion i j hi hj in_i in_j = elim (ℕ_discrete i j) [
    | yes same ↦ same
    | no other ↦ absurd (omega (arith, alone (Reach-Inv full r) i j hi hj other))
  ]

  -- Whatever the interleaving, if no buffer stands twice in the new pool, no two threads ever hold the
  -- same buffer at once.
  pub no_double_allocation :
      ((b : ℕ) → count b bufs ≤ 1)
      → (i j b : ℕ) → i < n
      → j < n
      → 0 < held b (s.pc i)
      → 0 < held b (s.pc j)
      → i ≡ j
  no_double_allocation once i j b hi hj mine yours = elim (ℕ_discrete i j) [
    | yes same ↦ same
    | no other ↦ absurd (
        omega (
          arith,
          once b,
          (Reach-Inv full r).owners b,
          pair-le-tally (held b) n s.pc i j hi hj other,
        ))
  ]

  storing-le-critical : (p : Pc) → storing p ≤ critical p
  storing-le-critical p = ground arith

  -- While the gate is open, the free part of the array and the threads together have every buffer
  -- as often as the new pool had it, and `pool_buf_offset` counts the buffers that are out.
  pub conservation :
      s.mem.gate ≡ 0
      → ((b : ℕ) → count b (drop s.mem.offset s.mem.queue) + tally (held b) n s.pc ≡ count b bufs)
        × (s.mem.offset ≡ tally held_total n s.pc)
  conservation is_open = (
    λ b. omega (arith, ap (λ (k : ℕ). count b (drop k s.mem.queue)) no_gap, inv.owners b),
    omega (arith, inv.out, no_gap),
  )
    where
      inv : Inv n cnt bufs s.mem s.pc
      inv = Reach-Inv full r

      no_gap : s.mem.offset + inv.gap ≡ s.mem.offset
      no_gap =
          omega (
            arith,
            inv.gap_is,
            inv.exclusive,
            tally_mono storing critical storing-le-critical n s.pc,
          )

  -- A thread that is about to return -1 from `bf_pop_free_buf` does so while all buffers are held.
  empty_only_if_all_held :
      (i : ℕ) (h : List ℕ) → i < n → s.pc i ≡ pop_open h none → tally held_total n s.pc ≡ cnt
  empty_only_if_all_held i h hi e = omega (arith, inv.out, inv.in_range, inv.same_cnt, seen)
    where
      inv : Inv n cnt bufs s.mem s.pc
      inv = Reach-Inv full r

      seen : s.mem.cnt ≤ s.mem.offset
      seen = rw e at (inv.fresh i hi)

  -- Giving a held buffer back is never refused, so no buffer is lost.
  free_never_fails : (i : ℕ) (h : List ℕ) (b : ℕ) → i < n → s.pc i ≢ push_open h (some b)
  free_never_fails i h b hi e = rw e at ((Reach-Inv full r).fresh i hi)
