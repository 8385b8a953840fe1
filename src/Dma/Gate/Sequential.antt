-- ===== src/Dma/Gate/Sequential.antt =====
-- One thread's call, run access by access while no other thread moves, is `bf_pop_free_buf` or
-- `bf_push_free_buf` of Dma/Queue.
use target_syslibs.Base.{
  ℕ, ◌+◌, ◌-◌, ◌≡◌, ◌↔◌, inl, inr, refl, sym, ap, ◌∙◌, Bool, true, false, Option, none, some, List,
  dec_lt, ℕ_discrete, get_elem?_of_lt, set, arith,
}
use target_syslibs.Base.Outcome.{done, done_injective}
use target_syslibs.Dma.Pool.{Pool}
use target_syslibs.Dma.Queue.{pop_free_buf, push_free_buf}
use target_syslibs.Dma.Queue.Stack.{IsValid}
use target_syslibs.Dma.Gate.{
  Shared, pop_spin, push_spin, receive, pop_wait, pop_enter, pop_none, pop_more, pop_offset,
  pop_value, pop_advance, pop_leave, push_wait, push_enter, push_none, push_some, push_within,
  push_offset, push_retreat, push_slot, push_value, push_leave,
}
use target_syslibs.Dma.Gate.Alone.{
  shared, Alone, ends, goes, after_pop_test, after_push_test, same_end,
}

module _ {p : Pool} (valid : IsValid p) (h : List ℕ) where
  -- What a call leaves, as a call of the functions in Dma/Queue says it.
  abbrev Popped : Shared → List ℕ → Type 0
  Popped m' h' =
      (r : Option ℕ) × (q : Pool) × (pop_free_buf p ≡ done (r, q))
      × (m' ≡ shared q)
      × (h' ≡ receive r h)

  abbrev Pushed : ℕ → Shared → List ℕ → Type 0
  Pushed b m' h' =
      (ok : Bool) × (q : Pool) × (push_free_buf p b ≡ done (ok, q)) × (m' ≡ shared q) × (h' ≡ h)

  Alone-Popped : {m' : Shared} {h' : List ℕ} → Alone m' h' (shared p) (pop_spin h) → Popped m' h'
  unfolding pop_free_buf
  Alone-Popped (goes _ (pop_wait e) a) = absurd (omega (arith, e, valid.open_gate))
  Alone-Popped (goes _ (pop_enter e) a) = elim (after_pop_test a) [
    | inl (l, em, eh) ↦ (none, record p { pool_gate = 0 }, ground arith, em, eh)
    | inr (v, l, e', em, eh) ↦ (
      some v,
      record p { pool_gate = 0; pool_buf_offset = p.pool_buf_offset + 1 },
      ground arith,
      em,
      eh,
    )
  ]

  Alone-Pushed :
      {m' : Shared} {h' : List ℕ} (b : ℕ) → Alone m' h' (shared p) (push_spin h b) → Pushed b m' h'
  unfolding push_free_buf
  Alone-Pushed b (goes _ (push_wait e) a) = absurd (omega (arith, e, valid.open_gate))
  Alone-Pushed b (goes _ (push_enter e) a) = elim (after_push_test b a) [
    | inl (full, em, eh) ↦ (false, record p { pool_gate = 0 }, ground arith, em, eh)
    | inr (d, l, em, eh) ↦ (
      true,
      record p {
        pool_gate = 0;
        pool_buf_offset = p.pool_buf_offset - 1;
        pool_buf_ptr = set p.pool_buf_ptr (p.pool_buf_offset - 1) b;
      },
      ground arith,
      em,
      eh,
    )
  ]

  -- The run exists.
  pop_runs : (m' : Shared) × (h' : List ℕ) × Alone m' h' (shared p) (pop_spin h)
  pop_runs = elim (dec_lt p.pool_buf_offset p.buf_cnt) [
    | yes l ↦
        let (v, e) = get_elem?_of_lt p.pool_buf_ptr p.pool_buf_offset (omega (arith, valid)) in
        (
          _,
          _,
          goes tt (pop_enter valid.open_gate) (
              goes tt (pop_more l) (
                goes tt pop_offset
                  (goes tt (pop_value e) (goes tt pop_advance (goes tt (pop_leave refl) ends))))),
        )
    | no g ↦ (
      _,
      _,
      goes tt (pop_enter valid.open_gate)
          (goes tt (pop_none (omega arith)) (goes tt (pop_leave refl) ends)),
    )
  ]

  push_runs : (b : ℕ) → (m' : Shared) × (h' : List ℕ) × Alone m' h' (shared p) (push_spin h b)
  push_runs b = elim (ℕ_discrete p.pool_buf_offset 0) [
    | yes e ↦ (
      _,
      _,
      goes tt (push_enter valid.open_gate) (goes tt (push_none e) (goes tt (push_leave refl) ends)),
    )
    | no d ↦ (
      _,
      _,
      goes tt (push_enter valid.open_gate) (
          goes tt (push_some d) (
            goes tt (push_within valid.in_range) (
              goes tt push_offset (
                goes tt push_retreat
                  (goes tt push_slot (goes tt push_value (goes tt (push_leave refl) ends))))))),
    )
  ]

  Popped-Alone : {m' : Shared} {h' : List ℕ} → Popped m' h' → Alone m' h' (shared p) (pop_spin h)
  Popped-Alone (r, q, e, em, eh) =
      let (m1, h1, a) = pop_runs in
      let (r1, q1, e1, em1, eh1) = Alone-Popped a in
      let same : (r1, q1) ≡ (r, q) = done_injective (sym e1 ∙ e) in
      same_end (em1 ∙ ap (λ x. shared x.1) same ∙ sym em)
        (eh1 ∙ ap (λ x. receive x.0 h) same ∙ sym eh) a

  Pushed-Alone :
      {m' : Shared} {h' : List ℕ} (b : ℕ) → Pushed b m' h' → Alone m' h' (shared p) (push_spin h b)
  Pushed-Alone b (ok, q, e, em, eh) =
      let (m1, h1, a) = push_runs b in
      let (ok1, q1, e1, em1, eh1) = Alone-Pushed b a in
      let same : (ok1, q1) ≡ (ok, q) = done_injective (sym e1 ∙ e) in
      same_end (em1 ∙ ap (λ x. shared x.1) same ∙ sym em) (eh1 ∙ sym eh) a

  -- On a valid pool, the accesses of one thread's `bf_pop_free_buf` that nobody interrupts end with
  -- the words `m'` and the buffers `h'` exactly if `pop_free_buf` ends so; and those of its
  -- `bf_push_free_buf` of any buffer exactly if `push_free_buf` ends so.
  pub uninterrupted_call :
      (m' : Shared) (h' : List ℕ) (b : ℕ)
      → (Alone m' h' (shared p) (pop_spin h) ↔ (
          (r : Option ℕ) × (q : Pool) × (pop_free_buf p ≡ done (r, q))
          × (m' ≡ shared q)
          × (h' ≡ receive r h)))
        × (Alone m' h' (shared p) (push_spin h b) ↔ (
            (ok : Bool) × (q : Pool) × (push_free_buf p b ≡ done (ok, q))
            × (m' ≡ shared q)
            × (h' ≡ h)))
  uninterrupted_call m' h' b = ((Alone-Popped, Popped-Alone), (Alone-Pushed b, Pushed-Alone b))
