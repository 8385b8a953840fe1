-- ===== src/Dma/Gate.antt =====
-- `bf_pop_free_buf` and `bf_push_free_buf` run by several threads on one pool, an access to shared
-- memory at a time. The gate is the word `pool_gate`.
pub mod Inv
pub mod Atomic
mod Effect
pub mod Moves
pub mod Safety
pub mod Onward
pub mod Progress
mod Logs
pub mod Linear
pub mod Alone
pub mod Sequential
pub mod Run
mod Tests
use target_syslibs.Base.{
  ℕ, ◌+◌, ◌-◌, ◌≤◌, ◌<◌, ◌≡◌, ◌≢◌, Option, none, some, List, [], ◌∷◌, ◌++◌, get_elem?, set,
}
use target_syslibs.Base.Threads.{assign}

-- The words of `bf_huge_pool_t` that the two functions touch.
pub record Shared : Type 0 where
  pub gate : ℕ
  pub offset : ℕ
  pub cnt : ℕ
  pub queue : List ℕ

-- Where a thread stands, with its local values. `h` lists the buffers that its caller holds, and
-- `b` is the one that it gives back.
pub data Pc : Type 0 where
  idle : (h : List ℕ) → Pc
  pop_spin pop_test pop_read : (h : List ℕ) → Pc
  pop_load : (h : List ℕ) (o : ℕ) → Pc
  pop_write : (h : List ℕ) (o v : ℕ) → Pc
  pop_open : (h : List ℕ) (r : Option ℕ) → Pc
  push_spin push_test push_check push_read : (h : List ℕ) (b : ℕ) → Pc
  push_write : (h : List ℕ) (b o : ℕ) → Pc
  push_index : (h : List ℕ) (b : ℕ) → Pc
  push_store : (h : List ℕ) (b o : ℕ) → Pc
  push_open : (h : List ℕ) (lost : Option ℕ) → Pc

-- The buffers of the caller after a call of `bf_pop_free_buf` with the result `r`.
abbrev pub receive : Option ℕ → List ℕ → List ℕ
receive none h = h
receive (some b) h = b ∷ h

-- One access of one thread. A caller gives back any buffer that it holds, at any time.
pub data Move (m : Shared) : Pc → Shared → Pc → Type 0 where
  pop_call : {h : List ℕ} → Move m (idle h) m (pop_spin h)
  pop_wait : {h : List ℕ} → m.gate ≡ 1 → Move m (pop_spin h) m (pop_spin h)
  pop_enter : {h : List ℕ} → m.gate ≡ 0 → Move m (pop_spin h) (record m { gate = 1 }) (pop_test h)
  pop_none : {h : List ℕ} → m.cnt ≤ m.offset → Move m (pop_test h) m (pop_open h none)
  pop_more : {h : List ℕ} → m.offset < m.cnt → Move m (pop_test h) m (pop_read h)
  pop_offset : {h : List ℕ} → Move m (pop_read h) m (pop_load h m.offset)
  pop_value :
      {h : List ℕ} {o v : ℕ}
      → get_elem? m.queue o ≡ some v
      → Move m (pop_load h o) m (pop_write h o v)
  pop_advance :
      {h : List ℕ} {o v : ℕ}
      → Move m (pop_write h o v) (record m { offset = o + 1 }) (pop_open h (some v))
  pop_leave :
      {h : List ℕ} {r : Option ℕ}
      → m.gate ≡ 1
      → Move m (pop_open h r) (record m { gate = 0 }) (idle (receive r h))
  push_call :
      {h : List ℕ} (before after : List ℕ) (b : ℕ)
      → h ≡ before ++ b ∷ after
      → Move m (idle h) m (push_spin (before ++ after) b)
  push_wait : {h : List ℕ} {b : ℕ} → m.gate ≡ 1 → Move m (push_spin h b) m (push_spin h b)
  push_enter :
      {h : List ℕ} {b : ℕ}
      → m.gate ≡ 0
      → Move m (push_spin h b) (record m { gate = 1 }) (push_test h b)
  push_none : {h : List ℕ} {b : ℕ} → m.offset ≡ 0 → Move m (push_test h b) m (push_open h (some b))
  push_some : {h : List ℕ} {b : ℕ} → m.offset ≢ 0 → Move m (push_test h b) m (push_check h b)
  push_over :
      {h : List ℕ} {b : ℕ} → m.cnt < m.offset → Move m (push_check h b) m (push_open h (some b))
  push_within : {h : List ℕ} {b : ℕ} → m.offset ≤ m.cnt → Move m (push_check h b) m (push_read h b)
  push_offset : {h : List ℕ} {b : ℕ} → Move m (push_read h b) m (push_write h b m.offset)
  push_retreat :
      {h : List ℕ} {b o : ℕ}
      → Move m (push_write h b o) (record m { offset = o - 1 }) (push_index h b)
  push_slot : {h : List ℕ} {b : ℕ} → Move m (push_index h b) m (push_store h b m.offset)
  push_value :
      {h : List ℕ} {b o : ℕ}
      → Move m (push_store h b o) (record m { queue = set m.queue o b }) (push_open h none)
  push_leave :
      {h : List ℕ} {lost : Option ℕ}
      → m.gate ≡ 1
      → Move m (push_open h lost) (record m { gate = 0 }) (idle h)

pub record System : Type 0 where
  pub mem : Shared
  pub pc : ℕ → Pc

pub data Step (n : ℕ) (s : System) : System → Type 0 where
  pick :
      (i : ℕ) {m : Shared} {p : Pc}
      → i < n
      → Move s.mem (s.pc i) m p
      → Step n s (record { mem = m; pc = assign s.pc i p })

-- A new pool: every buffer of `bufs` is free, the gate is open, no thread holds a buffer.
abbrev pub init : ℕ → List ℕ → System
init cnt bufs = record {
  mem = record { gate = 0; offset = 0; cnt = cnt; queue = bufs };
  pc = λ _. idle [];
}

pub data Reach (n cnt : ℕ) (bufs : List ℕ) : System → Type 0 where
  start : Reach n cnt bufs (init cnt bufs)
  later : {s t : System} → Reach n cnt bufs s → Step n s t → Reach n cnt bufs t
