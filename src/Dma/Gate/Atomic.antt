-- ===== src/Dma/Gate/Atomic.antt =====
-- The calls of all threads on one pool as single actions on a stack of free buffers: where a call
-- begins, where it takes effect and where it returns, and the logs that a run leaves.
use target_syslibs.Base.{
  ℕ, true, false, Option, none, some, List, [], ◌∷◌, ◌++◌, map, if◌then◌else◌, ◌==◌,
}
use target_syslibs.Dma.Queue.Stack.{Stack, Request, take, give, Reply, taken, given, pop, push}
use target_syslibs.Dma.Gate.{
  Shared, Pc, pop_spin, pop_test, pop_read, pop_load, pop_write, pop_open, push_spin, push_test,
  push_check, push_read, push_write, push_index, push_store, push_open, Move, pop_call, pop_none,
  pop_advance, pop_leave, push_call, push_none, push_over, push_value, push_leave, pick, System,
  Reach, start, later,
}

-- The value that `bf_push_free_buf` returns, from the buffer that it did not store.
abbrev pub accepted : Option ℕ → Reply
accepted none = given true
accepted (some _) = given false

-- What an access begins, does and returns: lists of at most one element.
abbrev pub called : {m m' : Shared} {p p' : Pc} → Move m p m' p' → List Request
called pop_call = take ∷ []
called (push_call _ _ b _) = give b ∷ []
called _ = []

abbrev pub effect : {m m' : Shared} {p p' : Pc} → Move m p m' p' → List (Request × Reply)
effect (pop_none _) = (take, taken none) ∷ []
effect (pop_advance {v = v}) = (take, taken (some v)) ∷ []
effect (push_none {b = b} _) = (give b, given false) ∷ []
effect (push_over {b = b} _) = (give b, given false) ∷ []
effect (push_value {b = b}) = (give b, given true) ∷ []
effect _ = []

abbrev pub returned : {m m' : Shared} {p p' : Pc} → Move m p m' p' → List Reply
returned (pop_leave {r = r} _) = taken r ∷ []
returned (push_leave {lost = lost} _) = accepted lost ∷ []
returned _ = []

-- The request of a call that has not yet taken effect.
abbrev pub asks : Pc → List Request
asks (pop_spin _) = take ∷ []
asks (pop_test _) = take ∷ []
asks (pop_read _) = take ∷ []
asks (pop_load _ _) = take ∷ []
asks (pop_write _ _ _) = take ∷ []
asks (push_spin _ b) = give b ∷ []
asks (push_test _ b) = give b ∷ []
asks (push_check _ b) = give b ∷ []
asks (push_read _ b) = give b ∷ []
asks (push_write _ b _) = give b ∷ []
asks (push_index _ b) = give b ∷ []
asks (push_store _ b _) = give b ∷ []
asks _ = []

-- The reply of a call that has taken effect and has not returned.
abbrev pub owes : Pc → List Reply
owes (pop_open _ r) = taken r ∷ []
owes (push_open _ lost) = accepted lost ∷ []
owes _ = []

abbrev pub request : Request × Reply → Request
request e = e.0

abbrev pub reply : Request × Reply → Reply
reply e = e.1

-- Entries of a log with the number of the thread.
abbrev pub stamp {ℓ} : {A : Type ℓ} → ℕ → List A → List (ℕ × A)
stamp i = map (λ a. (i, a))

abbrev pub of_thread {ℓ} : {A : Type ℓ} → ℕ → List (ℕ × A) → List A
of_thread i [] = []
of_thread i (e ∷ es) = if e.0 == i then e.1 ∷ of_thread i es else of_thread i es

module _ {n cnt : ℕ} {bufs : List ℕ} where
  -- The logs of a run, the oldest entry first.
  abbrev pub calls : {s : System} → Reach n cnt bufs s → List (ℕ × Request)
  calls start = []
  calls (later r (pick i _ mv)) = calls r ++ stamp i (called mv)

  abbrev pub effects : {s : System} → Reach n cnt bufs s → List (ℕ × (Request × Reply))
  effects start = []
  effects (later r (pick i _ mv)) = effects r ++ stamp i (effect mv)

  abbrev pub returns : {s : System} → Reach n cnt bufs s → List (ℕ × Reply)
  returns start = []
  returns (later r (pick i _ mv)) = returns r ++ stamp i (returned mv)

-- One request on the stack: the reply and the stack after it.
abbrev pub respond : ℕ → Stack → Request → Reply × Stack
respond cap s take = let (r, s') = pop s in (taken r, s')
respond cap s (give b) = let (r, s') = push cap b s in (given r, s')

abbrev pub stack_after : ℕ → Stack → List Request → Stack
stack_after cap s [] = s
stack_after cap s (q ∷ qs) = stack_after cap (respond cap s q).1 qs
