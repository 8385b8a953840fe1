-- ===== src/Dma/Gate/Onward.antt =====
-- The accesses that go on with a call, how many it has left, and when a thread can make one.
use target_syslibs.Base.{ℕ, suc, ◌<◌, ◌≡◌, dec_lt, ℕ_discrete, length, get_elem?_of_lt, arith}
use target_syslibs.Dma.Gate.{
  Shared, Pc, idle, pop_spin, pop_test, pop_read, pop_load, pop_write, pop_open, push_spin,
  push_test, push_check, push_read, push_write, push_index, push_store, push_open, Move, pop_call,
  pop_wait, pop_enter, pop_none, pop_more, pop_offset, pop_value, pop_advance, pop_leave, push_call,
  push_wait, push_enter, push_none, push_some, push_over, push_within, push_offset, push_retreat,
  push_slot, push_value, push_leave, System, Step, pick,
}
use target_syslibs.Dma.Gate.Inv.{critical, IsFresh}

-- An access that goes on with a call: it does not begin one, and does not find the gate closed.
abbrev pub IsOnward : {m m' : Shared} {p p' : Pc} → Move m p m' p' → Type 0
IsOnward pop_call = ⊥
IsOnward (push_call _ _ _ _) = ⊥
IsOnward (pop_wait _) = ⊥
IsOnward (push_wait _) = ⊥
IsOnward _ = Unit

abbrev pub IsOnwardStep : {n : ℕ} {s t : System} → Step n s t → Type 0
IsOnwardStep (pick _ _ mv) = IsOnward mv

-- `k` accesses that go on with calls.
pub data Onward (n : ℕ) : (k : ℕ) → System → System → Type 0 where
  stop : {s : System} → Onward n 0 s s
  go :
      {k : ℕ} {s t u : System} (st : Step n s t)
      → IsOnwardStep st
      → Onward n k t u
      → Onward n (suc k) s u

pub record Next (n : ℕ) (s : System) : Type 0 where
  pub after : System
  pub step : Step n s after
  pub onward : IsOnwardStep step

abbrev pub IsIdle : Pc → Type 0
IsIdle (idle _) = Unit
IsIdle _ = ⊥

-- The accesses that a call has left at most, once the gate is open.
abbrev pub weight : Pc → ℕ
weight (idle _) = 0
weight (pop_spin _) = 6
weight (pop_test _) = 5
weight (pop_read _) = 4
weight (pop_load _ _) = 3
weight (pop_write _ _ _) = 2
weight (pop_open _ _) = 1
weight (push_spin _ _) = 8
weight (push_test _ _) = 7
weight (push_check _ _) = 6
weight (push_read _ _) = 5
weight (push_write _ _ _) = 4
weight (push_index _ _) = 3
weight (push_store _ _ _) = 2
weight (push_open _ _) = 1

pub weight-Move :
    {m m' : Shared} {p p' : Pc} (mv : Move m p m' p') → IsOnward mv → weight p' < weight p
weight-Move pop_call o = elim o [ ]
weight-Move (pop_wait _) o = elim o [ ]
weight-Move (push_call _ _ _ _) o = elim o [ ]
weight-Move (push_wait _) o = elim o [ ]
weight-Move (pop_enter _) o = omega arith
weight-Move (pop_none _) o = omega arith
weight-Move (pop_more _) o = omega arith
weight-Move pop_offset o = omega arith
weight-Move (pop_value _) o = omega arith
weight-Move pop_advance o = omega arith
weight-Move (pop_leave _) o = omega arith
weight-Move (push_enter _) o = omega arith
weight-Move (push_none _) o = omega arith
weight-Move (push_some _) o = omega arith
weight-Move (push_over _) o = omega arith
weight-Move (push_within _) o = omega arith
weight-Move push_offset o = omega arith
weight-Move push_retreat o = omega arith
weight-Move push_slot o = omega arith
weight-Move push_value o = omega arith
weight-Move (push_leave _) o = omega arith

pub record NextMove (m : Shared) (p : Pc) : Type 0 where
  pub mem : Shared
  pub pc : Pc
  pub move : Move m p mem pc
  pub onward : IsOnward move

-- A thread behind the gate can always go on.
pub critical-NextMove :
    (m : Shared) (p : Pc)
    → critical p ≡ 1
    → m.gate ≡ 1
    → length m.queue ≡ m.cnt
    → IsFresh m p
    → NextMove m p
critical-NextMove m (idle h) c g q f = absurd (omega arith)
critical-NextMove m (pop_spin h) c g q f = absurd (omega arith)
critical-NextMove m (push_spin h b) c g q f = absurd (omega arith)
critical-NextMove m (pop_test h) c g q f = elim (dec_lt m.offset m.cnt) [
  | yes l ↦ record { mem = _; pc = _; move = pop_more l; onward = tt }
  | no l ↦ record { mem = _; pc = _; move = pop_none (omega arith); onward = tt }
]
critical-NextMove m (pop_read h) c g q f = record {
  mem = _;
  pc = _;
  move = pop_offset;
  onward = tt;
}
critical-NextMove m (pop_load h o) c g q (e, l) =
    let (v, at_o) = get_elem?_of_lt m.queue o (omega arith) in
    record { mem = _; pc = _; move = pop_value at_o; onward = tt }
critical-NextMove m (pop_write h o v) c g q f = record {
  mem = _;
  pc = _;
  move = pop_advance;
  onward = tt;
}
critical-NextMove m (pop_open h r) c g q f = record {
  mem = _;
  pc = _;
  move = pop_leave g;
  onward = tt;
}
critical-NextMove m (push_test h b) c g q f = elim (ℕ_discrete m.offset 0) [
  | yes e ↦ record { mem = _; pc = _; move = push_none e; onward = tt }
  | no d ↦ record { mem = _; pc = _; move = push_some d; onward = tt }
]
critical-NextMove m (push_check h b) c g q f = elim (dec_lt m.cnt m.offset) [
  | yes l ↦ record { mem = _; pc = _; move = push_over l; onward = tt }
  | no l ↦ record { mem = _; pc = _; move = push_within (omega arith); onward = tt }
]
critical-NextMove m (push_read h b) c g q f = record {
  mem = _;
  pc = _;
  move = push_offset;
  onward = tt;
}
critical-NextMove m (push_write h b o) c g q f = record {
  mem = _;
  pc = _;
  move = push_retreat;
  onward = tt;
}
critical-NextMove m (push_index h b) c g q f = record {
  mem = _;
  pc = _;
  move = push_slot;
  onward = tt;
}
critical-NextMove m (push_store h b o) c g q f = record {
  mem = _;
  pc = _;
  move = push_value;
  onward = tt;
}
critical-NextMove m (push_open h l) c g q f = record {
  mem = _;
  pc = _;
  move = push_leave g;
  onward = tt;
}

-- A thread before the gate can go on if the gate is open.
pub waiting-NextMove :
    (m : Shared) (p : Pc) → critical p ≡ 0 → 0 < weight p → m.gate ≡ 0 → NextMove m p
waiting-NextMove m (pop_spin h) c w g = record { mem = _; pc = _; move = pop_enter g; onward = tt }
waiting-NextMove m (push_spin h b) c w g = record {
  mem = _;
  pc = _;
  move = push_enter g;
  onward = tt;
}
waiting-NextMove m (idle h) c w g = absurd (omega arith)
waiting-NextMove m (pop_test h) c w g = absurd (omega arith)
waiting-NextMove m (pop_read h) c w g = absurd (omega arith)
waiting-NextMove m (pop_load h o) c w g = absurd (omega arith)
waiting-NextMove m (pop_write h o v) c w g = absurd (omega arith)
waiting-NextMove m (pop_open h r) c w g = absurd (omega arith)
waiting-NextMove m (push_test h b) c w g = absurd (omega arith)
waiting-NextMove m (push_check h b) c w g = absurd (omega arith)
waiting-NextMove m (push_read h b) c w g = absurd (omega arith)
waiting-NextMove m (push_write h b o) c w g = absurd (omega arith)
waiting-NextMove m (push_index h b) c w g = absurd (omega arith)
waiting-NextMove m (push_store h b o) c w g = absurd (omega arith)
waiting-NextMove m (push_open h l) c w g = absurd (omega arith)

pub weightless-IsIdle : (p : Pc) → weight p ≡ 0 → IsIdle p
weightless-IsIdle p e = ground arith
