-- ===== src/Dma/Gate/Inv.antt =====
-- Who holds which buffer, and what a thread behind the gate knows of the shared words.
use target_syslibs.Base.{
  count, ℕ, ◌+◌, ◌≤◌, ◌<◌, ◌≡◌, none, some, List, ◌∷◌, get_elem?, length, drop,
}
use target_syslibs.Base.Threads.{tally}
use target_syslibs.Dma.Gate.{
  Shared, Pc, idle, pop_spin, pop_test, pop_read, pop_load, pop_write, pop_open, push_spin,
  push_test, push_check, push_read, push_write, push_index, push_store, push_open,
}

-- Between closing the gate and opening it.
abbrev pub critical : Pc → ℕ
critical (idle _) = 0
critical (pop_spin _) = 0
critical (push_spin _ _) = 0
critical _ = 1

-- A slot that `pool_buf_offset--` has freed and that is not yet written.
abbrev pub storing : Pc → ℕ
storing (push_index _ _) = 1
storing (push_store _ _ _) = 1
storing _ = 0

-- The buffers that the thread or its caller holds.
abbrev pub holds : Pc → List ℕ
holds (idle h) = h
holds (pop_spin h) = h
holds (pop_test h) = h
holds (pop_read h) = h
holds (pop_load h _) = h
holds (pop_write h _ _) = h
holds (pop_open h none) = h
holds (pop_open h (some b)) = b ∷ h
holds (push_spin h b) = b ∷ h
holds (push_test h b) = b ∷ h
holds (push_check h b) = b ∷ h
holds (push_read h b) = b ∷ h
holds (push_write h b _) = b ∷ h
holds (push_index h b) = b ∷ h
holds (push_store h b _) = b ∷ h
holds (push_open h none) = h
holds (push_open h (some b)) = b ∷ h

abbrev pub held : ℕ → Pc → ℕ
held b p = count b (holds p)

abbrev pub held_total : Pc → ℕ
held_total p = length (holds p)

-- What the local values say of shared memory.
abbrev pub IsFresh : Shared → Pc → Type 0
IsFresh m (pop_read _) = m.offset < m.cnt
IsFresh m (pop_load _ o) = (m.offset ≡ o) × (o < m.cnt)
IsFresh m (pop_write _ o v) = (m.offset ≡ o) × (o < m.cnt) × (get_elem? m.queue o ≡ some v)
IsFresh m (pop_open _ none) = m.cnt ≤ m.offset
IsFresh m (push_check _ _) = 0 < m.offset
IsFresh m (push_read _ _) = 0 < m.offset
IsFresh m (push_write _ _ o) = (m.offset ≡ o) × (0 < o)
IsFresh m (push_index _ _) = m.offset < m.cnt
IsFresh m (push_store _ _ o) = (m.offset ≡ o) × (o < m.cnt)
IsFresh m (push_open _ (some _)) = ⊥
IsFresh m _ = Unit

-- `gap` is the number of slots that are free to be written: 1 inside a push, 0 elsewhere.
pub record Inv (n cnt : ℕ) (bufs : List ℕ) (m : Shared) (pc : ℕ → Pc) : Type 0 where
  pub gap : ℕ
  pub gap_is : tally storing n pc ≡ gap
  pub exclusive : tally critical n pc ≡ m.gate
  pub binary : m.gate ≤ 1
  pub same_cnt : m.cnt ≡ cnt
  pub slots : length m.queue ≡ cnt
  pub in_range : m.offset + gap ≤ cnt
  pub owners :
      (b : ℕ) → count b (drop (m.offset + gap) m.queue) + tally (held b) n pc ≡ count b bufs
  pub out : m.offset + gap ≡ tally held_total n pc
  pub fresh : (i : ℕ) → i < n → IsFresh m (pc i)
