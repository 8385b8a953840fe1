-- ===== src/Dma/Gate/Alone.antt =====
-- The accesses of one thread while no other thread moves.
use target_syslibs.Base.{
  ℕ, ◌+◌, ◌-◌, ◌≤◌, ◌<◌, ◌≡◌, ◌≢◌, ◌⊎◌, inl, inr, refl, Option, none, some, List, ◌∷◌, get_elem?,
  set,
}
use target_syslibs.Dma.Pool.{Pool}
use target_syslibs.Dma.Gate.{
  Shared, Pc, idle, pop_test, pop_open, push_test, push_index, push_open, receive, Move, pop_none,
  pop_more, pop_offset, pop_value, pop_advance, pop_leave, push_none, push_some, push_over,
  push_within, push_offset, push_retreat, push_slot, push_value, push_leave,
}

-- The words of a pool that the threads share.
abbrev pub shared : Pool → Shared
shared p = record {
  gate = p.pool_gate;
  offset = p.pool_buf_offset;
  cnt = p.buf_cnt;
  queue = p.pool_buf_ptr;
}

abbrev IsInside : Pc → Type 0
IsInside (idle _) = ⊥
IsInside _ = Unit

-- The accesses of one thread alone from the words `m` and the place `p` to the end of its call, which
-- leaves `m'` and the buffers `h'`.
pub data Alone (m' : Shared) (h' : List ℕ) : Shared → Pc → Type 0 where
  ends : Alone m' h' m' (idle h')
  goes :
      {m m1 : Shared} {p p1 : Pc}
      → IsInside p
      → Move m p m1 p1
      → Alone m' h' m1 p1
      → Alone m' h' m p

after_idle : {m m' : Shared} {h h' : List ℕ} → Alone m' h' m (idle h) → (m' ≡ m) × (h' ≡ h)
after_idle ends = (refl, refl)
after_idle (goes inside mv a) = absurd inside

module _ {m' : Shared} {h h' : List ℕ} where
  after_pop_open :
      {m : Shared} (r : Option ℕ)
      → Alone m' h' m (pop_open h r)
      → (m' ≡ record m { gate = 0 }) × (h' ≡ receive r h)
  after_pop_open r (goes _ (pop_leave e) a) = after_idle a

  after_push_open :
      {m : Shared} (lost : Option ℕ)
      → Alone m' h' m (push_open h lost)
      → (m' ≡ record m { gate = 0 }) × (h' ≡ h)
  after_push_open lost (goes _ (push_leave e) a) = after_idle a

  pub after_pop_test :
      {m : Shared}
      → Alone m' h' m (pop_test h)
      → ((m.cnt ≤ m.offset) × (m' ≡ record m { gate = 0 }) × (h' ≡ h))
        ⊎ ((v : ℕ) × (m.offset < m.cnt)
            × (get_elem? m.queue m.offset ≡ some v)
            × (m' ≡ record m { gate = 0; offset = m.offset + 1 })
            × (h' ≡ v ∷ h))
  after_pop_test (goes _ (pop_none e) a) = let (em, eh) = after_pop_open none a in inl (e, em, eh)
  after_pop_test
        (goes _
          (pop_more l)
          (goes _ pop_offset (goes _ (pop_value {v = v} e) (goes _ pop_advance a)))) =
      let (em, eh) = after_pop_open (some v) a in inr (v, l, e, em, eh)

  after_push_index :
      {m : Shared} (b : ℕ)
      → Alone m' h' m (push_index h b)
      → (m' ≡ record m { gate = 0; queue = set m.queue m.offset b }) × (h' ≡ h)
  after_push_index b (goes _ push_slot (goes _ push_value a)) = after_push_open none a

  pub after_push_test :
      {m : Shared} (b : ℕ)
      → Alone m' h' m (push_test h b)
      → (((m.offset ≡ 0) ⊎ (m.cnt < m.offset)) × (m' ≡ record m { gate = 0 }) × (h' ≡ h))
        ⊎ ((m.offset ≢ 0)
            × (m.offset ≤ m.cnt)
            × (m' ≡ record m {
              gate = 0;
              offset = m.offset - 1;
              queue = set m.queue (m.offset - 1) b;
            })
            × (h' ≡ h))
  after_push_test b (goes _ (push_none e) a) =
      let (em, eh) = after_push_open (some b) a in inl (inl e, em, eh)
  after_push_test b (goes _ (push_some d) (goes _ (push_over l) a)) =
      let (em, eh) = after_push_open (some b) a in inl (inr l, em, eh)
  after_push_test b
        (goes _
          (push_some d)
          (goes _ (push_within l) (goes _ push_offset (goes _ push_retreat a)))) =
      let (em, eh) = after_push_index b a in inr (d, l, em, eh)

pub same_end :
    {m m1 m2 : Shared} {h1 h2 : List ℕ} {p : Pc}
    → m1 ≡ m2
    → h1 ≡ h2
    → Alone m1 h1 m p
    → Alone m2 h2 m p
same_end em eh a = rw (em, eh) at a
