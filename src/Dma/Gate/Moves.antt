-- ===== src/Dma/Gate/Moves.antt =====
-- Every access of every thread keeps the invariant of the gate.
use target_syslibs.Base.{
  ℕ, ◌+◌, ◌≤◌, ◌<◌, ◌≡◌, ◌≢◌, ◌⊎◌, inl, inr, ℕ_discrete, eq→==, ne→not-==, refl, List, [], length,
  arith,
}
use target_syslibs.Base.Threads.{
  assign, tally-assign, tally_mono, tally-zero, le-tally, pair-le-tally,
}
use target_syslibs.Dma.Gate.{Shared, Pc, idle, Move, System, Step, pick, init, Reach, start, later}
use target_syslibs.Dma.Gate.Inv.{critical, storing, held, held_total, IsFresh, Inv}
use target_syslibs.Dma.Gate.Effect.{Effect, Before, Move-Effect, IsFresh-quiet}

module _ {n cnt : ℕ} {bufs : List ℕ} {m : Shared} {pc : ℕ → Pc} (inv : Inv n cnt bufs m pc) where
  open inv use {gap, gap_is, exclusive, binary, same_cnt, slots, in_range, owners, out, fresh}

  storing-le-critical : (p : Pc) → storing p ≤ critical p
  storing-le-critical p = ground arith

  -- Of two threads at most one is behind the gate.
  pub alone : (i j : ℕ) → i < n → j < n → i ≢ j → critical (pc i) + critical (pc j) ≤ 1
  alone i j hi hj d = omega (arith, pair-le-tally critical n pc i j hi hj d)

  -- The slots to be written are those of the thread behind the gate.
  gap-critical : (i : ℕ) → i < n → critical (pc i) ≡ 1 → gap ≡ storing (pc i)
  gap-critical i hi e = omega (
    arith,
    tally-assign critical n pc i (idle []) hi,
    tally-assign storing n pc i (idle []) hi,
    tally_mono storing critical storing-le-critical n (assign pc i (idle [])),
  )

  pub before : (i : ℕ) → i < n → Before cnt gap m (pc i)
  before i hi = record {
    same_cnt = same_cnt;
    slots = slots;
    in_range = in_range;
    binary = binary;
    fresh = fresh i hi;
    mine = λ e. (gap-critical i hi e, omega (arith, le-tally critical n pc i hi));
    enough = omega (arith, le-tally held_total n pc i hi);
  }

  critical-bit : (p : Pc) → (critical p ≡ 0) ⊎ (critical p ≡ 1)
  critical-bit p = ground arith

  Move-Inv :
      (i : ℕ) {m' : Shared} {p' : Pc}
      → i < n
      → Move m (pc i) m' p'
      → Inv n cnt bufs m' (assign pc i p')
  Move-Inv i {m'} {p'} hi mv = record {
    gap = f.gap';
    gap_is = omega (arith, f.gap_moves, tally-assign storing n pc i p' hi);
    exclusive = omega (arith, f.gate_moves, tally-assign critical n pc i p' hi);
    binary = f.binary;
    same_cnt = f.same_cnt;
    slots = f.slots;
    in_range = f.in_range;
    owners = λ b. omega (arith, tally-assign (held b) n pc i p' hi, f.owners b, owners b);
    out = omega (arith, f.out, tally-assign held_total n pc i p' hi);
    fresh = λ j hj. elim (ℕ_discrete i j) [
      | yes same ↦ rw (eq→== i j same) f.own
      | no other ↦ rw (ne→not-== i j other) (unmoved j hj other)
    ];
  }
    where
      f : Effect cnt gap m (pc i) m' p'
      f = Move-Effect mv (before i hi)

      unmoved : (j : ℕ) → j < n → i ≢ j → IsFresh m' (pc j)
      unmoved j hj other = elim (critical-bit (pc i)) [
        | inl outside ↦ f.others outside (pc j) (fresh j hj)
        | inr inside ↦ IsFresh-quiet m' (pc j) (omega (arith, alone i j hi hj other))
      ]

-- At the start every buffer is free and every thread is idle.
init-Inv :
    (n cnt : ℕ) (bufs : List ℕ)
    → length bufs ≡ cnt
    → Inv n cnt bufs (init cnt bufs).mem (init cnt bufs).pc
init-Inv n cnt bufs e = record {
  gap = 0;
  gap_is = tally-zero storing n _ (λ i. refl);
  exclusive = tally-zero critical n _ (λ i. refl);
  binary = omega arith;
  same_cnt = refl;
  slots = e;
  in_range = omega arith;
  owners = λ b. omega (arith, tally-zero (held b) n (λ _. idle []) (λ i. refl));
  out = omega (arith, tally-zero held_total n (λ _. idle []) (λ i. refl));
  fresh = λ i h. tt;
}

pub Step-Inv :
    {n cnt : ℕ} {bufs : List ℕ} {s t : System}
    → Step n s t
    → Inv n cnt bufs s.mem s.pc
    → Inv n cnt bufs t.mem t.pc
Step-Inv (pick i lt mv) inv = Move-Inv inv i lt mv

-- Every reachable state satisfies the invariant.
pub Reach-Inv :
    {n cnt : ℕ} {bufs : List ℕ} {s : System}
    → length bufs ≡ cnt
    → Reach n cnt bufs s
    → Inv n cnt bufs s.mem s.pc
Reach-Inv {n} {cnt} {bufs} e start = init-Inv n cnt bufs e
Reach-Inv e (later r st) = Step-Inv st (Reach-Inv e r)
