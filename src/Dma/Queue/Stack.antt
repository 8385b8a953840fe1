-- ===== src/Dma/Queue/Stack.antt =====
-- The free buffers behave as a stack of at most `buf_cnt` addresses, top first.
use native.Mathlib.Numerals.{add-one}
use target_syslibs.Base.{
  ℕ, suc, ◌+◌, ◌-◌, ◌^◌, ◌≤◌, ◌<◌, ◌≡◌, refl, arith, Option, none, some, Bool, true, false, List,
  [], ◌∷◌, if◌then◌else◌, ltb, lt→ltb, le→not-ltb, dec_lt, ap, ◌∙◌, length, drop-all, drop,
  length-drop, length-set, set, drop_of_get_elem?, get_elem?_of_lt, get_elem?-set_self, drop-set,
}
use target_syslibs.Base.Outcome.{Outcome, done, ◌>>=◌}
use target_syslibs.Dma.Pool.{Pool}
use target_syslibs.Dma.Queue.{pop_free_buf, push_free_buf}

-- What pool creation establishes and every call keeps.
pub record IsValid (p : Pool) : Type 0 where
  pub slots : length p.pool_buf_ptr ≡ p.buf_cnt
  pub small : p.buf_cnt < 2 ^ 31
  pub in_range : p.pool_buf_offset ≤ p.buf_cnt
  pub open_gate : p.pool_gate ≡ 0

-- The buffers that are free, the next one to be handed out first.
abbrev pub free_bufs : Pool → List ℕ
free_bufs p = drop p.pool_buf_offset p.pool_buf_ptr

-- The stack that the queue implements.
abbrev pub Stack : Type 0
Stack = List ℕ

abbrev pub pop : Stack → Option ℕ × Stack
pop [] = (none, [])
pop (x ∷ s) = (some x, s)

abbrev pub push : ℕ → ℕ → Stack → Bool × Stack
push cap x s = if ltb (length s) cap then (true, x ∷ s) else (false, s)

-- The state after a call, beside its result.
pub record Step {ℓ} {R : Type ℓ} (p : Pool) (call : Outcome (R × Pool)) (spec : R × Stack)
    : Type ℓ where
  pub after : Pool
  pub returns : call ≡ done (spec.0, after)
  pub frees : free_bufs after ≡ spec.1
  pub valid : IsValid after
  pub same_count : after.buf_cnt ≡ p.buf_cnt

length-free : (p : Pool) → IsValid p → length (free_bufs p) ≡ p.buf_cnt - p.pool_buf_offset
length-free p v = omega (arith, length-drop p.pool_buf_offset p.pool_buf_ptr)

-- `bf_pop_free_buf` hands out the top of the stack, or returns -1 if it is empty.
pop_refines : (p : Pool) → IsValid p → Step p (pop_free_buf p) (pop (free_bufs p))
unfolding pop_free_buf
pop_refines p v = elim (dec_lt p.pool_buf_offset p.buf_cnt) [
  | yes more ↦
      let (b, e) = get_elem?_of_lt p.pool_buf_ptr p.pool_buf_offset (omega arith) in
      let next = drop_of_get_elem? p.pool_buf_ptr p.pool_buf_offset b e in
      rw next (record {
        after = record p { pool_gate = 0; pool_buf_offset = p.pool_buf_offset + 1 };
        returns = ground arith;
        frees = ground (arith, add-one p.pool_buf_offset);
        valid = ground arith;
        same_count = refl;
      })
  | no full ↦ rw (drop-all p.pool_buf_ptr p.pool_buf_offset (omega arith)) (record {
    after = record p { pool_gate = 0 };
    returns = ground arith;
    frees = drop-all p.pool_buf_ptr p.pool_buf_offset (omega arith);
    valid = ground arith;
    same_count = refl;
  })
]

-- `bf_push_free_buf` puts the buffer on top, or returns -1 if as many as `buf_cnt` are free.
push_refines :
    (p : Pool) (x : ℕ) → IsValid p → Step p (push_free_buf p x) (push p.buf_cnt x (free_bufs p))
unfolding push_free_buf
push_refines p x v = elim (dec_lt 0 p.pool_buf_offset) [
  | yes room ↦
      let here = get_elem?-set_self p.pool_buf_ptr (p.pool_buf_offset - 1) x (omega arith) in
      let top =
        drop_of_get_elem? (set p.pool_buf_ptr (p.pool_buf_offset - 1) x) (p.pool_buf_offset - 1) x
          here in
      rw (lt→ltb (length (free_bufs p)) p.buf_cnt (omega (arith, length-free p v))) (record {
        after = record p {
          pool_gate = 0;
          pool_buf_offset = p.pool_buf_offset - 1;
          pool_buf_ptr = set p.pool_buf_ptr (p.pool_buf_offset - 1) x;
        };
        returns = ground arith;
        frees =
            top
            ∙ ap (λ l. x ∷ l)
                (drop-set p.pool_buf_ptr (p.pool_buf_offset - 1) x
                  ∙ ap (λ (n : ℕ). drop n p.pool_buf_ptr) {x = suc (p.pool_buf_offset - 1)}
                      (omega arith));
        valid = ground (arith, length-set p.pool_buf_ptr (p.pool_buf_offset - 1) x);
        same_count = refl;
      })
  | no full ↦
      rw (le→not-ltb (length (free_bufs p)) p.buf_cnt (omega (arith, length-free p v))) (record {
        after = record p { pool_gate = 0 };
        returns = ground arith;
        frees = refl;
        valid = ground arith;
        same_count = refl;
      })
]

-- What a client asks of the queue.
pub data Request : Type 0 where
  take : Request
  give : ℕ → Request

-- What it gets back: an address or none, or whether the buffer was accepted.
pub data Reply : Type 0 where
  taken : Option ℕ → Reply
  given : Bool → Reply

-- The calls in order, with the reply of each.
pub serve : Pool → List Request → Outcome (List Reply)
serve p [] = done []
serve p (take ∷ rs) = do (r, q) ← pop_free_buf p; rest ← serve q rs; done (taken r ∷ rest)
serve p (give b ∷ rs) = do (r, q) ← push_free_buf p b; rest ← serve q rs; done (given r ∷ rest)

unfoldable pub serve_stack : ℕ → Stack → List Request → List Reply
serve_stack cap s [] = []
serve_stack cap s (take ∷ rs) = let (r, s') = pop s in taken r ∷ serve_stack cap s' rs
serve_stack cap s (give b ∷ rs) = let (r, s') = push cap b s in given r ∷ serve_stack cap s' rs

-- On a valid pool, every sequence of calls of `bf_pop_free_buf` and `bf_push_free_buf` by one thread
-- returns, with the replies that a stack of the free buffers, bounded by `buf_cnt`, gives.
pub serve_refines :
    (rs : List Request) (p : Pool)
    → IsValid p
    → serve p rs ≡ done (serve_stack p.buf_cnt (free_bufs p) rs)
unfolding serve serve_stack
serve_refines [] p v = refl
serve_refines (take ∷ rs) p v =
    let st = pop_refines p v in
    rw (st.returns, serve_refines rs st.after st.valid, st.same_count, st.frees)
serve_refines (give b ∷ rs) p v =
    let st = push_refines p b v in
    rw (st.returns, serve_refines rs st.after st.valid, st.same_count, st.frees)
