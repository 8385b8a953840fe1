-- ===== src/Base/Outcome.antt =====
-- How a call of a C function ends: it returns, an `assert` stops the process, it has undefined
-- behaviour (a read outside an array, a free of what was not allocated), or it waits for ever.
use mathlib.Core.Bool.{Bool, true, false}
use mathlib.Core.Path.{◌≡◌}
use mathlib.Core.Option.{Option, none, some}

pub data Outcome {ℓ} (A : Type ℓ) : Type ℓ where
  done : A → Outcome A
  aborted : Outcome A
  faulted : Outcome A
  blocked : Outcome A

infixl 5 ◌>>=◌ ◌>>◌
abbrev pub ◌>>=◌ {ℓ κ} : {A : Type ℓ} {B : Type κ} → Outcome A → (A → Outcome B) → Outcome B
done a >>= f = f a
aborted >>= f = aborted
faulted >>= f = faulted
blocked >>= f = blocked

abbrev pub ◌>>◌ {ℓ} : {B : Type ℓ} → Outcome (Unit {0}) → Outcome B → Outcome B
m >> k = m >>= λ _. k

-- `assert (c)`
abbrev pub assert : Bool → Outcome (Unit {0})
assert true = done tt
assert false = aborted

-- A read that is defined only where there is a value.
abbrev pub defined {ℓ} : {A : Type ℓ} → Option A → Outcome A
defined (some a) = done a
defined none = faulted

pub done_injective {ℓ} : {A : Type ℓ} {x y : A} → done x ≡ done y → x ≡ y
done_injective e = cc
