-- ===== src/Dma/Machine/Laws.antt =====
-- Reasoning about chains of machine steps: a postcondition of what returns, and the heap's laws.
use target_syslibs.Base.{
  ℕ, ◌<◌, ◌≡◌, refl, false, Option, none, some, ◌∷◌, eq→==, ne→not-==, Option-cases, inl, inr,
  arith,
}
use target_syslibs.Base.Outcome.{Outcome, done, aborted, faulted}
use target_syslibs.Dma.Machine.{Machine, System, M, ◌>>=◌, is_in, bf_sys_calloc, bf_sys_free}

-- If the call returns, its value and the machine satisfy `Q`.
abbrev pub Ends : {A : Type 0} → (A → Machine → Type 0) → Outcome (A × Machine) → Type 0
Ends Q (done (a, m)) = Q a m
Ends Q aborted = Unit
Ends Q faulted = Unit
Ends Q Outcome.blocked = Unit

bind-Ends :
    {A B : Type 0} (P : A → Machine → Type 0) (Q : B → Machine → Type 0) (f : A → M B) (m : Machine)
    (o : Outcome (A × Machine))
    → Ends P o
    → ((a : A) (m' : Machine) → P a m' → Ends Q (f a m'))
    → Ends Q (◌>>=◌ {A = A} {B = B} (λ _. o) f m)
bind-Ends P Q f m (done (a, m')) p k = k a m' p
bind-Ends P Q f m aborted p k = tt
bind-Ends P Q f m faulted p k = tt
bind-Ends P Q f m Outcome.blocked p k = tt

-- The rule for two parts in a row.
pub >>=-Ends :
    {A B : Type 0} (P : A → Machine → Type 0) (Q : B → Machine → Type 0) (c : M A) (f : A → M B)
    (m : Machine)
    → Ends P (c m)
    → ((a : A) (m' : Machine) → P a m' → Ends Q (f a m'))
    → Ends Q ((c >>= f) m)
>>=-Ends P Q c f m p k = bind-Ends P Q f m (c m) p k

pub Ends-map :
    {A : Type 0} (P Q : A → Machine → Type 0)
    → ((a : A) (m : Machine) → P a m → Q a m)
    → (o : Outcome (A × Machine)) → Ends P o
    → Ends Q o
Ends-map P Q f (done (a, m)) p = f a m p
Ends-map P Q f aborted p = tt
Ends-map P Q f faulted p = tt
Ends-map P Q f Outcome.blocked p = tt

-- A chain goes on from the value of its first part.
pub >>=-step :
    {A B : Type 0} (c : M A) (f : A → M B) (m m' : Machine) (a : A)
    → c m ≡ done (a, m')
    → (c >>= f) m ≡ f a m'
>>=-step c f m m' a e = rw (e, ◌>>=◌)

abbrev pub with_block : Machine → ℕ → Machine
with_block m a = record m { heap = a ∷ m.heap }

-- No block and no change, or a block that is new in the heap.
abbrev pub Calloced : System → Machine → ℕ → ℕ → Option ℕ → Machine → Type 0
Calloced s m elem size none m' = m' ≡ m
Calloced s m elem size (some a) m' = (s.calloc m elem size ≡ some a) × (m' ≡ with_block m a)

pub bf_sys_calloc-some :
    (s : System) (elem size a : ℕ) (m : Machine)
    → s.calloc m elem size ≡ some a
    → bf_sys_calloc s elem size m ≡ done (some a, with_block m a)
unfolding bf_sys_calloc
bf_sys_calloc-some s elem size a m e = ground arith

pub bf_sys_calloc-none :
    (s : System) (elem size : ℕ) (m : Machine)
    → s.calloc m elem size ≡ none
    → bf_sys_calloc s elem size m ≡ done (none, m)
unfolding bf_sys_calloc
bf_sys_calloc-none s elem size m e = ground arith

pub bf_sys_calloc-Ends :
    (s : System) (elem size : ℕ) (m : Machine)
    → Ends (Calloced s m elem size) (bf_sys_calloc s elem size m)
bf_sys_calloc-Ends s elem size m = elim (Option-cases (s.calloc m elem size)) [
  | inl e ↦ rw (bf_sys_calloc-none s elem size m e) refl
  | inr (a, e) ↦ rw (bf_sys_calloc-some s elem size a m e) (e, refl)
]

-- The block that was allocated last is freed.
pub bf_sys_free-last : (a : ℕ) (m : Machine) → 0 < a → bf_sys_free a (with_block m a) ≡ done (tt, m)
unfolding bf_sys_free
bf_sys_free-last a m pos = rw (ne→not-== a 0 (omega arith), eq→== a a refl) refl

-- The block below the last one is freed.
pub bf_sys_free-below :
    (a b : ℕ) (m : Machine)
    → 0 < a
    → is_in b (a ∷ m.heap) ≡ false
    → bf_sys_free a (with_block (with_block m a) b) ≡ done (tt, with_block m b)
unfolding bf_sys_free
bf_sys_free-below a b m pos new = ground arith

-- To free what is no block of the heap is undefined.
pub bf_sys_free-foreign :
    (a : ℕ) (m : Machine) → 0 < a → is_in a m.heap ≡ false → bf_sys_free a m ≡ faulted
unfolding bf_sys_free
bf_sys_free-foreign a m pos out = rw (ne→not-== a 0 (omega arith), out) refl
