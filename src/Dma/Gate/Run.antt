-- ===== src/Dma/Gate/Run.antt =====
-- Reachable states by evaluation: the threads move in a given order. An idle thread that holds no
-- buffer asks for one, and one that holds some gives the first back.
use mathlib.Core.Logic.{dite}
use native.Mathlib.Decide.{dec_le}
use target_syslibs.Base.{
  ℕ, inl, inr, refl, Option, none, some, Option-cases, List, [], ◌∷◌, get_elem?, ℕ_discrete, dec_lt,
  arith,
}
use target_syslibs.Dma.Gate.{
  Shared, Pc, idle, pop_spin, pop_test, pop_read, pop_load, pop_write, pop_open, push_spin,
  push_test, push_check, push_read, push_write, push_index, push_store, push_open, Move, pop_call,
  pop_enter, pop_none, pop_more, pop_offset, pop_value, pop_advance, pop_leave, push_call,
  push_enter, push_none, push_some, push_over, push_within, push_offset, push_retreat, push_slot,
  push_value, push_leave, System, pick, init, Reach, start, later,
}

record Moved (m : Shared) (p : Pc) : Type 0 where
  mem : Shared
  pc : Pc
  move : Move m p mem pc

moved : {m m' : Shared} {p p' : Pc} → Move m p m' p' → Option (Moved m p)
moved {m'} {p'} mv = some (record { mem = m'; pc = p'; move = mv })

-- `none` where the thread waits at the gate.
next_move : (m : Shared) (p : Pc) → Option (Moved m p)
unfolding moved ℕ_discrete dec_lt dec_le Option-cases
next_move m (idle []) = moved pop_call
next_move m (idle (b ∷ h)) = moved (push_call [] h b refl)
next_move m (pop_spin h) = dite (ℕ_discrete m.gate 0) (λ e. moved (pop_enter e)) (λ _. none)
next_move m (pop_test h) = elim (dec_lt m.offset m.cnt) [
  | yes l ↦ moved (pop_more l)
  | no g ↦ moved (pop_none (omega arith))
]
next_move m (pop_read h) = moved pop_offset
next_move m (pop_load h o) = elim (Option-cases (get_elem? m.queue o)) [
  | inl _ ↦ none
  | inr (v, e) ↦ moved (pop_value e)
]
next_move m (pop_write h o v) = moved pop_advance
next_move m (pop_open h r) = dite (ℕ_discrete m.gate 1) (λ e. moved (pop_leave e)) (λ _. none)
next_move m (push_spin h b) = dite (ℕ_discrete m.gate 0) (λ e. moved (push_enter e)) (λ _. none)
next_move m (push_test h b) =
    dite (ℕ_discrete m.offset 0) (λ e. moved (push_none e)) (λ d. moved (push_some d))
next_move m (push_check h b) = elim (dec_lt m.cnt m.offset) [
  | yes l ↦ moved (push_over l)
  | no g ↦ moved (push_within (omega arith))
]
next_move m (push_read h b) = moved push_offset
next_move m (push_write h b o) = moved push_retreat
next_move m (push_index h b) = moved push_slot
next_move m (push_store h b o) = moved push_value
next_move m (push_open h lost) = dite (ℕ_discrete m.gate 1) (λ e. moved (push_leave e)) (λ _. none)

pub record Run (n cnt : ℕ) (bufs : List ℕ) : Type 0 where
  pub last : System
  pub reach : Reach n cnt bufs last

turn : {n cnt : ℕ} {bufs : List ℕ} → Run n cnt bufs → ℕ → Run n cnt bufs
unfolding next_move
turn {n} r i = elim (dec_lt i n) [
  | yes lt ↦ elim (next_move r.last.mem (r.last.pc i)) [
    | some mv ↦ record { last = _; reach = later r.reach (pick i lt mv.move) }
    | none ↦ r
  ]
  | no _ ↦ r
]

turns : {n cnt : ℕ} {bufs : List ℕ} → Run n cnt bufs → List ℕ → Run n cnt bufs
turns r [] = r
turns r (i ∷ is) = turns (turn r i) is

unfoldable pub run : (n cnt : ℕ) (bufs : List ℕ) → List ℕ → Run n cnt bufs
unfolding turn turns
run n cnt bufs order = turns (record { last = init cnt bufs; reach = start }) order
