-- ===== src/Dma/Gate/Effect.antt =====
-- What one access of one thread does to the shared words and to what the thread holds.
use target_syslibs.Base.{
  count, count-append, ℕ, suc, ◌+◌, ◌-◌, ◌≤◌, ◌≡◌, refl, ap, none, some, List, ◌∷◌, ◌++◌, length,
  length-append, length-set, drop, get_elem?, drop_of_get_elem?, drop-set, get_elem?-set_self, set,
  arith,
}
use target_syslibs.Dma.Gate.{
  Shared, Pc, idle, pop_spin, pop_write, pop_open, push_spin, push_write, push_index, push_store,
  push_open, Move, pop_call, pop_wait, pop_enter, pop_none, pop_more, pop_offset, pop_value,
  pop_advance, pop_leave, push_call, push_wait, push_enter, push_none, push_some, push_over,
  push_within, push_offset, push_retreat, push_slot, push_value, push_leave,
}
use target_syslibs.Dma.Gate.Inv.{critical, storing, held, held_total, IsFresh}

-- What one access does to the shared words and to the weights of its thread.
pub record Effect (cnt gap : ℕ) (m : Shared) (p : Pc) (m' : Shared) (p' : Pc) : Type 0 where
  pub gap' : ℕ
  pub gap_moves : gap' + storing p ≡ gap + storing p'
  pub gate_moves : m'.gate + critical p ≡ m.gate + critical p'
  pub binary : m'.gate ≤ 1
  pub same_cnt : m'.cnt ≡ cnt
  pub slots : length m'.queue ≡ cnt
  pub in_range : m'.offset + gap' ≤ cnt
  pub owners :
      (b : ℕ)
      → count b (drop (m'.offset + gap') m'.queue) + held b p'
        ≡ count b (drop (m.offset + gap) m.queue) + held b p
  pub out : m'.offset + gap' + held_total p ≡ m.offset + gap + held_total p'
  pub own : IsFresh m' p'
  pub others : critical p ≡ 0 → (q : Pc) → IsFresh m q → IsFresh m' q

-- A thread outside the gate knows nothing of shared memory.
pub IsFresh-quiet : (m : Shared) (q : Pc) → critical q ≡ 0 → IsFresh m q
IsFresh-quiet m (idle _) e = tt
IsFresh-quiet m (pop_spin _) e = tt
IsFresh-quiet m (push_spin _ _) e = tt
IsFresh-quiet m q e = absurd (omega arith)

-- Nor does any thread know anything of the gate's word.
IsFresh-gate : (m : Shared) (g : ℕ) (q : Pc) → IsFresh m q → IsFresh (record m { gate = g }) q
IsFresh-gate m g (push_open h (some b)) f = f
IsFresh-gate m g (idle _) f = f
IsFresh-gate m g q f = ground arith

-- What the invariant says where a thread at `p` is about to move.
pub record Before (cnt gap : ℕ) (m : Shared) (p : Pc) : Type 0 where
  pub same_cnt : m.cnt ≡ cnt
  pub slots : length m.queue ≡ cnt
  pub in_range : m.offset + gap ≤ cnt
  pub binary : m.gate ≤ 1
  pub fresh : IsFresh m p
  pub mine : critical p ≡ 1 → (gap ≡ storing p) × (m.gate ≡ 1)
  pub enough : held_total p ≤ m.offset + gap

-- An access that writes at most the gate, and neither takes nor gives a buffer.
still :
    {cnt gap : ℕ} {m : Shared} {p : Pc} (g : ℕ) (p' : Pc)
    → Before cnt gap m p
    → storing p' ≡ storing p
    → g + critical p ≡ m.gate + critical p'
    → g ≤ 1
    → ((b : ℕ) → held b p' ≡ held b p)
    → held_total p' ≡ held_total p
    → IsFresh (record m { gate = g }) p'
    → Effect cnt gap m p (record m { gate = g }) p'
still {gap} {m} g p' v st cr small he ht fr = record {
  gap' = gap;
  gap_moves = omega arith;
  gate_moves = cr;
  binary = small;
  same_cnt = v.same_cnt;
  slots = v.slots;
  in_range = v.in_range;
  owners = λ b. omega (arith, he b);
  out = omega arith;
  own = fr;
  others = λ e q f. IsFresh-gate m g q f;
}

-- The caller's list after one buffer is taken out of its middle and put in front.
count-middle :
    (b x : ℕ) (before after : List ℕ)
    → count b (x ∷ before ++ after) ≡ count b (before ++ x ∷ after)
count-middle b x before after =
    omega (arith, count-append b before after, count-append b before (x ∷ after))

length-middle :
    (x : ℕ) (before after : List ℕ) → length (x ∷ before ++ after) ≡ length (before ++ x ∷ after)
length-middle x before after =
    omega (arith, length-append before after, length-append before (x ∷ after))

-- The part of the array that holds the free buffers, at an equal index.
count-drop : (b : ℕ) (q : List ℕ) (i j : ℕ) → i ≡ j → count b (drop i q) ≡ count b (drop j q)
count-drop b q i j e = ap (λ (k : ℕ). count b (drop k q)) e

advance :
    {cnt gap : ℕ} {m : Shared} {h : List ℕ} {o x : ℕ}
    → Before cnt gap m (pop_write h o x)
    → Effect cnt gap m (pop_write h o x) (record m { offset = o + 1 }) (pop_open h (some x))
advance {gap} {m} {h} {o} {x} v = record {
  gap' = 0;
  gap_moves = omega (arith, gap_none.0);
  gate_moves = refl;
  binary = v.binary;
  same_cnt = v.same_cnt;
  slots = v.slots;
  in_range = omega arith;
  owners = λ b. omega (
    arith,
    count-drop b m.queue (o + 1 + 0) (suc o) (omega arith),
    count-drop b m.queue (m.offset + gap) o (omega (arith, gap_none.0)),
    ap (count b) (drop_of_get_elem? m.queue o x (v.fresh.2)),
  );
  out = omega (arith, gap_none.0);
  own = tt;
  others = λ e q f. absurd (omega arith);
}
  where
    gap_none : (gap ≡ 0) × (m.gate ≡ 1)
    gap_none = v.mine refl

retreat :
    {cnt gap : ℕ} {m : Shared} {h : List ℕ} {o x : ℕ}
    → Before cnt gap m (push_write h x o)
    → Effect cnt gap m (push_write h x o) (record m { offset = o - 1 }) (push_index h x)
retreat {gap} {m} {h} {o} {x} v = record {
  gap' = 1;
  gap_moves = omega (arith, gap_none.0);
  gate_moves = refl;
  binary = v.binary;
  same_cnt = v.same_cnt;
  slots = v.slots;
  in_range = omega arith;
  owners = λ b.
      omega (arith, count-drop b m.queue (o - 1 + 1) (m.offset + gap) (omega (arith, gap_none.0)));
  out = omega (arith, gap_none.0);
  own = omega arith;
  others = λ e q f. absurd (omega arith);
}
  where
    gap_none : (gap ≡ 0) × (m.gate ≡ 1)
    gap_none = v.mine refl

value :
    {cnt gap : ℕ} {m : Shared} {h : List ℕ} {o x : ℕ}
    → Before cnt gap m (push_store h x o)
    → Effect cnt gap m (push_store h x o) (record m { queue = set m.queue o x }) (push_open h none)
value {gap} {m} {h} {o} {x} v = record {
  gap' = 0;
  gap_moves = omega (arith, gap_one.0);
  gate_moves = refl;
  binary = v.binary;
  same_cnt = v.same_cnt;
  slots = omega (arith, length-set m.queue o x);
  in_range = omega arith;
  owners = λ b. omega (
    arith,
    count-drop b (set m.queue o x) (m.offset + 0) o (omega arith),
    count-drop b m.queue (m.offset + gap) (suc o) (omega (arith, gap_one.0)),
    ap (count b) (drop_of_get_elem? (set m.queue o x) o x written),
    ap (count b) (drop-set m.queue o x),
  );
  out = omega (arith, gap_one.0);
  own = tt;
  others = λ e q f. absurd (omega arith);
}
  where
    gap_one : (gap ≡ 1) × (m.gate ≡ 1)
    gap_one = v.mine refl

    written : get_elem? (set m.queue o x) o ≡ some x
    written = get_elem?-set_self m.queue o x (omega arith)

pub Move-Effect :
    {cnt gap : ℕ} {m m' : Shared} {p p' : Pc}
    → Move m p m' p'
    → Before cnt gap m p
    → Effect cnt gap m p m' p'
Move-Effect {m} pop_call v = still m.gate _ v refl refl v.binary (λ b. refl) refl tt
Move-Effect {m} (pop_wait g) v = still m.gate _ v refl refl v.binary (λ b. refl) refl tt
Move-Effect {m} (pop_enter g) v = still 1 _ v refl (omega arith) (omega arith) (λ b. refl) refl tt
Move-Effect {m} (pop_none g) v = still m.gate _ v refl refl v.binary (λ b. refl) refl g
Move-Effect {m} (pop_more g) v = still m.gate _ v refl refl v.binary (λ b. refl) refl g
Move-Effect {m} pop_offset v = still m.gate _ v refl refl v.binary (λ b. refl) refl (refl, v.fresh)
Move-Effect {m} (pop_value e) v =
    still m.gate _ v refl refl v.binary (λ b. refl) refl (v.fresh.0, v.fresh.1, e)
Move-Effect {m} pop_advance v = advance v
Move-Effect {m} (pop_leave {r = none} g) v =
    still 0 _ v refl (omega arith) (omega arith) (λ b. refl) refl tt
Move-Effect {m} (pop_leave {r = some b} g) v =
    still 0 _ v refl (omega arith) (omega arith) (λ b. refl) refl tt
Move-Effect {m} (push_call before after x e) v =
    still m.gate _ v refl refl v.binary (λ b. rw e (count-middle b x before after))
      (rw e (length-middle x before after)) tt
Move-Effect {m} (push_wait g) v = still m.gate _ v refl refl v.binary (λ b. refl) refl tt
Move-Effect {m} (push_enter g) v = still 1 _ v refl (omega arith) (omega arith) (λ b. refl) refl tt
Move-Effect {m} (push_none g) v = absurd (omega (arith, (v.mine refl).0))
Move-Effect {m} (push_some g) v = still m.gate _ v refl refl v.binary (λ b. refl) refl (omega arith)
Move-Effect {m} (push_over g) v = absurd (omega arith)
Move-Effect {m} (push_within g) v = still m.gate _ v refl refl v.binary (λ b. refl) refl v.fresh
Move-Effect {m} push_offset v = still m.gate _ v refl refl v.binary (λ b. refl) refl (refl, v.fresh)
Move-Effect {m} push_retreat v = retreat v
Move-Effect {m} push_slot v = still m.gate _ v refl refl v.binary (λ b. refl) refl (refl, v.fresh)
Move-Effect {m} push_value v = value v
Move-Effect {m} (push_leave {lost = none} g) v =
    still 0 _ v refl (omega arith) (omega arith) (λ b. refl) refl tt
Move-Effect {m} (push_leave {lost = some b} g) v = absurd v.fresh
