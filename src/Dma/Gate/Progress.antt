-- ===== src/Dma/Gate/Progress.antt =====
-- Calls of `bf_pop_free_buf` and `bf_push_free_buf` that have begun come to their end.
use target_syslibs.Base.{
  ℕ, zero, suc, ◌+◌, ◌*◌, ◌≤◌, ◌<◌, ◌≡◌, ◌⊎◌, inl, inr, sym, ◌∙◌, List, dec_lt, length, arith,
}
use target_syslibs.Base.Threads.{tally, tally-assign, tally-pos, le-tally}
use target_syslibs.Dma.Gate.{Pc, System, pick, Reach, later}
use target_syslibs.Dma.Gate.Inv.{critical, Inv}
use target_syslibs.Dma.Gate.Moves.{Reach-Inv}
use target_syslibs.Dma.Gate.Onward.{
  Onward, stop, go, Next, IsIdle, weight, weight-Move, NextMove, critical-NextMove,
  waiting-NextMove, weightless-IsIdle,
}

abbrev work : ℕ → System → ℕ
work n s = tally weight n s.pc

work-Onward : {n k : ℕ} {s t : System} → Onward n k s t → k + work n t ≤ work n s
work-Onward stop = omega arith
work-Onward {n} {s} (go (pick i {p = p} lt mv) o rest) =
    omega (arith, work-Onward rest, tally-assign weight n s.pc i p lt, weight-Move mv o)

weight-max : (p : Pc) → weight p ≤ 8
weight-max p = ground arith

work-max : (n : ℕ) (f : ℕ → Pc) → tally weight n f ≤ 8 * n
unfolding tally
work-max zero f = omega arith
work-max (suc n) f = omega (arith, work-max n f, weight-max (f n))

Reach-Onward :
    {n cnt k : ℕ} {bufs : List ℕ} {s t : System}
    → Onward n k s t
    → Reach n cnt bufs s
    → Reach n cnt bufs t
Reach-Onward stop r = r
Reach-Onward (go st o rest) r = Reach-Onward rest (later r st)

critical-max : (p : Pc) → critical p ≤ 1
critical-max p = ground arith

next_of : {n : ℕ} {s : System} (i : ℕ) → i < n → NextMove s.mem (s.pc i) → Next n s
next_of i lt mv = record { after = _; step = pick i lt mv.move; onward = mv.onward }

module _ {n cnt : ℕ} {bufs : List ℕ} {s : System} (full : length bufs ≡ cnt) where
  busy-Next : Reach n cnt bufs s → 0 < work n s → Next n s
  busy-Next r busy = elim (dec_lt 0 s.mem.gate) [
    | yes closed ↦
        let (i, lt, c) = tally-pos critical n s.pc (omega (arith, inv.exclusive)) in
        next_of i lt (
          critical-NextMove s.mem (s.pc i) (omega (arith, critical-max (s.pc i)))
            (omega (arith, inv.binary)) (inv.slots ∙ sym inv.same_cnt) (inv.fresh i lt))
    | no is_open ↦
        let (i, lt, w) = tally-pos weight n s.pc busy in
        next_of i lt (
          waiting-NextMove s.mem (s.pc i)
            (omega (arith, le-tally critical n s.pc i lt, inv.exclusive)) w (omega arith))
  ]
    where
      inv : Inv n cnt bufs s.mem s.pc
      inv = Reach-Inv full r

  stage : Reach n cnt bufs s → ((i : ℕ) → i < n → IsIdle (s.pc i)) ⊎ Next n s
  stage r = elim (dec_lt 0 (work n s)) [
    | yes busy ↦ inr (busy-Next r busy)
    | no rest ↦
        inl (λ i lt. weightless-IsIdle (s.pc i) (omega (arith, le-tally weight n s.pc i lt)))
  ]

-- Whatever the interleaving: while no call begins, `n` threads together make at most `8 * n` accesses,
-- apart from tests of a closed gate; and as long as one of them has not returned from its call, some
-- thread can make such an access.
pub calls_return :
    {n cnt k : ℕ} {bufs : List ℕ} {s t : System}
    → length bufs ≡ cnt
    → Reach n cnt bufs s
    → Onward n k s t
    → (k ≤ 8 * n) × (((i : ℕ) → i < n → IsIdle (t.pc i)) ⊎ Next n t)
calls_return {n} {s} full r o =
    (omega (arith, work-Onward o, work-max n s.pc), stage full (Reach-Onward o r))
