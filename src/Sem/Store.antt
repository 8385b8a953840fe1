-- ===== src/Sem/Store.antt =====
-- What the functions that make and delete locks change: the blocks of the heap and the objects of
-- the threads library that live in them. The answers of the library are a parameter.
use target_syslibs.Base.{
  ℕ, ◌-◌, ◌^◌, ◌≡◌, Bool, true, false, Option, none, some, List, [], ◌∷◌, if◌then◌else◌, ◌==◌,
}
use target_syslibs.Base.Outcome.{Outcome, done, faulted}

pub record Store : Type 0 where
  pub heap : List ℕ
  pub live : List ℕ

-- The objects, with the attribute that a mutex is made with.
pub data Kind : Type 0 where
  plain_mutex checked_mutex recursive_mutex condition semaphore rwlock : Kind

-- `malloc` and `realloc`, and the results of the calls that begin and end the life of an object.
pub record Library : Type 0 where
  pub malloc : Store → Option ℕ
  pub realloc : (ptr size : ℕ) → Store → Outcome (Option ℕ × Store)
  pub init : Kind → Store → ℕ → ℕ
  pub destroy : Kind → Store → ℕ → ℕ

-- The result -1 of an `int` function.
abbrev pub minus_one : ℕ
minus_one = 2 ^ 32 - 1

abbrev pub is_in : ℕ → List ℕ → Bool
is_in a [] = false
is_in a (x ∷ xs) = if x == a then true else is_in a xs

abbrev pub remove : ℕ → List ℕ → List ℕ
remove a [] = []
remove a (x ∷ xs) = if x == a then xs else x ∷ remove a xs

-- A new block has an address that is not NULL and not in use, and an object that is alive can be
-- destroyed: the callers hold no mutex and wait for no condition of it.
pub record IsLawful (lib : Library) : Type 0 where
  pub fresh : (st : Store) (a : ℕ) → lib.malloc st ≡ some a → is_in a st.heap ≡ false
  pub not_null : (st : Store) (a : ℕ) → lib.malloc st ≡ some a → (a == 0) ≡ false
  pub destroyed : (k : Kind) (st : Store) (a : ℕ) → is_in a st.live ≡ true → lib.destroy k st a ≡ 0

abbrev pub S : Type 0 → Type 0
S A = Store → Outcome (A × Store)

-- `bf_sys_malloc` of bf_sys_mem.c
unfoldable pub bf_sys_malloc : Library → S (Option ℕ)
bf_sys_malloc lib st = elim (lib.malloc st) [
  | none ↦ done (none, st)
  | some a ↦ done (some a, record st { heap = a ∷ st.heap })
]

-- `bf_sys_realloc` of bf_sys_mem.c
unfoldable pub bf_sys_realloc : Library → (ptr size : ℕ) → S (Option ℕ)
bf_sys_realloc lib ptr size st = lib.realloc ptr size st

-- A block that is not allocated must not be freed.
unfoldable pub free : ℕ → S (Unit {0})
free a st =
    if a == 0
    then done (tt, st)
    else if is_in a st.heap
    then done (tt, record st { heap = remove a st.heap })
    else faulted

unfoldable pub begin : Library → Kind → ℕ → S ℕ
begin lib k a st =
    if lib.init k st a == 0
    then done (0, record st { live = a ∷ st.live })
    else done (lib.init k st a, st)

unfoldable pub finish : Library → Kind → ℕ → S ℕ
finish lib k a st =
    if lib.destroy k st a == 0
    then done (0, record st { live = remove a st.live })
    else done (lib.destroy k st a, st)
