-- ===== src/Dma/Gate/Logs.antt =====
-- Each thread's part of the logs: what it asked, what took effect and what was returned to it.
use mathlib.Core.List.{append_assoc, append-nil, map-append}
use target_syslibs.Base.{
  ℕ, ◌<◌, ◌≡◌, ◌≢◌, true, refl, sym, ap, ◌∙◌, List, [], ◌∷◌, ◌++◌, map, ◌==◌, ℕ_discrete, eq→==,
  ne→not-==, arith,
}
use target_syslibs.Dma.Gate.{
  Shared, Pc, Move, pop_call, pop_wait, pop_enter, pop_none, pop_more, pop_offset, pop_value,
  pop_advance, pop_leave, push_call, push_wait, push_enter, push_none, push_some, push_over,
  push_within, push_offset, push_retreat, push_slot, push_value, push_leave, pick, System, Reach,
  start, later,
}
use target_syslibs.Dma.Gate.Atomic.{
  called, effect, returned, asks, owes, request, reply, stamp, of_thread, calls, effects, returns,
}

-- A call that begins is asked until it takes effect, and its reply is owed until it returns.
record Kept {m m' : Shared} {p p' : Pc} (mv : Move m p m' p') : Type 0 where
  asked : asks p ++ called mv ≡ map request (effect mv) ++ asks p'
  owed : owes p ++ map reply (effect mv) ≡ returned mv ++ owes p'

Move-Kept : {m m' : Shared} {p p' : Pc} (mv : Move m p m' p') → Kept mv
Move-Kept pop_call = record { asked = refl; owed = refl }
Move-Kept (pop_wait _) = record { asked = refl; owed = refl }
Move-Kept (pop_enter _) = record { asked = refl; owed = refl }
Move-Kept (pop_none _) = record { asked = refl; owed = refl }
Move-Kept (pop_more _) = record { asked = refl; owed = refl }
Move-Kept pop_offset = record { asked = refl; owed = refl }
Move-Kept (pop_value _) = record { asked = refl; owed = refl }
Move-Kept pop_advance = record { asked = refl; owed = refl }
Move-Kept (pop_leave _) = record { asked = refl; owed = refl }
Move-Kept (push_call _ _ _ _) = record { asked = refl; owed = refl }
Move-Kept (push_wait _) = record { asked = refl; owed = refl }
Move-Kept (push_enter _) = record { asked = refl; owed = refl }
Move-Kept (push_none _) = record { asked = refl; owed = refl }
Move-Kept (push_some _) = record { asked = refl; owed = refl }
Move-Kept (push_over _) = record { asked = refl; owed = refl }
Move-Kept (push_within _) = record { asked = refl; owed = refl }
Move-Kept push_offset = record { asked = refl; owed = refl }
Move-Kept push_retreat = record { asked = refl; owed = refl }
Move-Kept push_slot = record { asked = refl; owed = refl }
Move-Kept push_value = record { asked = refl; owed = refl }
Move-Kept (push_leave _) = record { asked = refl; owed = refl }

module _ {ℓ} {A : Type ℓ} where
  of_thread-append :
      (i : ℕ) (xs ys : List (ℕ × A)) → of_thread i (xs ++ ys) ≡ of_thread i xs ++ of_thread i ys
  of_thread-append i [] ys = refl
  of_thread-append i ((j, a) ∷ xs) ys = ground (arith, of_thread-append i xs ys)

  of_thread-stamp_self : (i : ℕ) (xs : List A) → of_thread i (stamp i xs) ≡ xs
  of_thread-stamp_self i [] = refl
  of_thread-stamp_self i (x ∷ xs) = ground (arith, of_thread-stamp_self i xs)

  of_thread-stamp_other : (i j : ℕ) → j ≢ i → (xs : List A) → of_thread i (stamp j xs) ≡ []
  of_thread-stamp_other i j d [] = refl
  of_thread-stamp_other i j d (x ∷ xs) = ground (arith, of_thread-stamp_other i j d xs)

  -- What a step of thread `j` adds to the log of thread `i`.
  own_entry :
      (i j : ℕ)
      → j ≡ i
      → (log : List (ℕ × A)) (xs : List A) → of_thread i (log ++ stamp j xs) ≡ of_thread i log ++ xs
  own_entry i j e log xs =
      of_thread-append i log (stamp j xs)
      ∙ ap (λ ys. of_thread i log ++ ys)
          (ap (λ k. of_thread i (stamp k xs)) e ∙ of_thread-stamp_self i xs)

  other_entry :
      (i j : ℕ)
      → j ≢ i
      → (log : List (ℕ × A)) (xs : List A) → of_thread i (log ++ stamp j xs) ≡ of_thread i log
  other_entry i j d log xs =
      of_thread-append i log (stamp j xs)
      ∙ ap (λ ys. of_thread i log ++ ys) (of_thread-stamp_other i j d xs)
      ∙ append-nil (of_thread i log)

-- The logs of thread `i` after any run.
pub record ThreadLog {n cnt : ℕ} {bufs : List ℕ} {s : System} (r : Reach n cnt bufs s) (i : ℕ)
    : Type 0 where
  pub asked : of_thread i (calls r) ≡ map request (of_thread i (effects r)) ++ asks (s.pc i)
  pub answered : map reply (of_thread i (effects r)) ≡ of_thread i (returns r) ++ owes (s.pc i)

shift_entries {ℓ} :
    {A : Type ℓ} (l k a c e a' : List A) → l ≡ k ++ a → a ++ c ≡ e ++ a' → l ++ c ≡ (k ++ e) ++ a'
shift_entries l k a c e a' h s =
    ap (λ x. x ++ c) h ∙ append_assoc k a c ∙ ap (λ x. k ++ x) s ∙ sym (append_assoc k e a')

module _ {n cnt : ℕ} {bufs : List ℕ} {s : System} (r : Reach n cnt bufs s) where
  own_step :
      {m : Shared} {p : Pc} (i j : ℕ) (lt : j < n) (mv : Move s.mem (s.pc j) m p)
      → j ≡ i
      → ThreadLog r i
      → ThreadLog (later r (pick j lt mv)) i
  own_step {p} i j lt mv e log = record {
    asked =
        own_entry i j e (calls r) (called mv)
        ∙ rw (own_entry i j e (effects r) (effect mv), map-append, here)
            (shift_entries (of_thread i (calls r)) (map request (of_thread i (effects r)))
              (asks (s.pc j)) (called mv) (map request (effect mv)) (asks p)
              (log.asked ∙ ap (λ k. map request (of_thread i (effects r)) ++ asks (s.pc k)) (sym e))
              kept.asked);
    answered =
        rw
          (
            own_entry i j e (effects r) (effect mv),
            own_entry i j e (returns r) (returned mv),
            map-append,
            here,
          )
          (shift_entries (map reply (of_thread i (effects r))) (of_thread i (returns r))
            (owes (s.pc j)) (map reply (effect mv)) (returned mv) (owes p)
            (log.answered ∙ ap (λ k. of_thread i (returns r) ++ owes (s.pc k)) (sym e)) kept.owed);
  }
    where
      kept : Kept mv
      kept = Move-Kept mv

      here : (j == i) ≡ true
      here = eq→== j i e

  other_step :
      {m : Shared} {p : Pc} (i j : ℕ) (lt : j < n) (mv : Move s.mem (s.pc j) m p)
      → j ≢ i
      → ThreadLog r i
      → ThreadLog (later r (pick j lt mv)) i
  other_step {p} i j lt mv d log = record {
    asked =
        rw
          (
            other_entry i j d (calls r) (called mv),
            other_entry i j d (effects r) (effect mv),
            ne→not-== j i d,
          )
          log.asked;
    answered =
        rw
          (
            other_entry i j d (effects r) (effect mv),
            other_entry i j d (returns r) (returned mv),
            ne→not-== j i d,
          )
          log.answered;
  }

pub Reach-ThreadLog :
    {n cnt : ℕ} {bufs : List ℕ} {s : System} (r : Reach n cnt bufs s) (i : ℕ) → ThreadLog r i
Reach-ThreadLog start i = record { asked = refl; answered = refl }
Reach-ThreadLog (later r (pick j lt mv)) i = elim (ℕ_discrete j i) [
  | yes same ↦ own_step r i j lt mv same (Reach-ThreadLog r i)
  | no other ↦ other_step r i j lt mv other (Reach-ThreadLog r i)
]
