-- ===== src/Base/Counts.antt =====
-- How often a number stands in a list, and at which indices.
use Prim.Native.Nat.{ℕ, suc, ◌≤◌, ◌<◌}
use mathlib.Core.Path.{◌≡◌}
use mathlib.Core.List.{List, [], ◌∷◌}
use mathlib.Core.Option.{some}
use native.Mathlib.Omega.{arith}
use native.Mathlib.Decide.{dec_lt, ℕ_discrete}
use target_syslibs.Base.Lists.{get_elem?, count}

pub get_elem?-count : (b : ℕ) (xs : List ℕ) → 0 < count b xs → (k : ℕ) × (get_elem? xs k ≡ some b)
get_elem?-count b [] h = elim h [ ]
get_elem?-count b (x ∷ xs) h = elim (ℕ_discrete x b) [
  | yes here ↦ (0, ground arith)
  | no other ↦ let (k, e) = get_elem?-count b xs (ground arith) in (suc k, e)
]

-- What stands at one index at most is counted once at most.
pub count-once :
    (b : ℕ) (xs : List ℕ)
    → ((i j : ℕ) → get_elem? xs i ≡ some b → get_elem? xs j ≡ some b → i ≡ j)
    → count b xs ≤ 1
count-once b [] one = omega arith
count-once b (x ∷ xs) one = elim (dec_lt 0 (count b xs)) [
  | yes more ↦
      let (k, e) = get_elem?-count b xs more in
      let rest = count-once b xs (λ i j p q. omega (arith, one (suc i) (suc j) p q)) in
      elim (ℕ_discrete x b) [
        | yes here ↦ absurd (omega (arith, one 0 (suc k) (ground arith) e))
        | no other ↦ ground (arith, rest)
      ]
  | no none_left ↦ ground arith
]
