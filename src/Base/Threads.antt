-- ===== src/Base/Threads.antt =====
-- The local states of numbered threads: a change at one of them, and sums over the first `n`.
use Prim.Native.Nat.{ℕ, zero, suc, ◌+◌, ◌≤◌, ◌<◌}
use mathlib.Core.Path.{◌≡◌, refl}
use mathlib.Core.Logic.{◌≢◌}
use native.Mathlib.Omega.{arith}
use native.Mathlib.Decide.{dec_lt, ℕ_discrete}
use target_syslibs.Base.Tests.{◌==◌, if◌then◌else◌}

abbrev pub assign {ℓ} : {A : Type ℓ} → (ℕ → A) → ℕ → A → ℕ → A
assign f i a j = if i == j then a else f j

module _ {ℓ} {A : Type ℓ} (f : ℕ → A) (i : ℕ) where
  pub assign_same : (a : A) → assign f i a i ≡ a
  assign_same a = ground arith

  pub assign_other : (j : ℕ) (a : A) → i ≢ j → assign f i a j ≡ f j
  assign_other j a d = ground arith

module _ {ℓ} {A : Type ℓ} (w : A → ℕ) where
  unfoldable pub tally : ℕ → (ℕ → A) → ℕ
  tally zero f = 0
  tally (suc n) f = w (f n) + tally n f

  tally-assign_above :
      (n : ℕ) (f : ℕ → A) (i : ℕ) (a : A) → n ≤ i → tally n (assign f i a) ≡ tally n f
  unfolding tally
  tally-assign_above zero f i a h = refl
  tally-assign_above (suc n) f i a h = ground (arith, tally-assign_above n f i a)

  -- The sum changes by what the one thread's weight changes by.
  pub tally-assign :
      (n : ℕ) (f : ℕ → A) (i : ℕ) (a : A)
      → i < n
      → tally n (assign f i a) + w (f i) ≡ tally n f + w a
  unfolding tally
  tally-assign zero f i a h = elim h [ ]
  tally-assign (suc n) f i a h = elim (ℕ_discrete i n) [
    | yes last ↦ ground (arith, tally-assign_above n f i a)
    | no other ↦ ground (arith, tally-assign n f i a)
  ]

  pub tally-zero : (n : ℕ) (f : ℕ → A) → ((i : ℕ) → w (f i) ≡ 0) → tally n f ≡ 0
  unfolding tally
  tally-zero zero f h = refl
  tally-zero (suc n) f h = omega (arith, h n, tally-zero n f h)

  pub le-tally : (n : ℕ) (f : ℕ → A) (i : ℕ) → i < n → w (f i) ≤ tally n f
  unfolding tally
  le-tally zero f i h = elim h [ ]
  le-tally (suc n) f i h = elim (ℕ_discrete i n) [
    | yes last ↦ ground arith
    | no other ↦ omega (arith, le-tally n f i)
  ]

  pub pair-le-tally :
      (n : ℕ) (f : ℕ → A) (i j : ℕ) → i < n → j < n → i ≢ j → w (f i) + w (f j) ≤ tally n f
  unfolding tally
  pair-le-tally zero f i j hi hj d = elim hi [ ]
  pair-le-tally (suc n) f i j hi hj d = elim (ℕ_discrete i n) [
    | yes last ↦ ground (arith, le-tally n f j)
    | no other ↦ elim (ℕ_discrete j n) [
      | yes last ↦ ground (arith, le-tally n f i)
      | no other' ↦ omega (arith, pair-le-tally n f i j)
    ]
  ]

  -- A positive sum has a positive part.
  pub tally-pos : (n : ℕ) (f : ℕ → A) → 0 < tally n f → (i : ℕ) × (i < n) × (0 < w (f i))
  unfolding tally
  tally-pos zero f h = elim h [ ]
  tally-pos (suc n) f h = elim (dec_lt 0 (w (f n))) [
    | yes here ↦ (n, omega arith, here)
    | no rest ↦ let (i, lt, pos) = tally-pos n f (omega arith) in (i, omega arith, pos)
  ]

-- A weight that is nowhere larger has no larger sum.
pub tally_mono {ℓ} :
    {A : Type ℓ} (v w : A → ℕ)
    → ((a : A) → v a ≤ w a)
    → (n : ℕ) (f : ℕ → A) → tally v n f ≤ tally w n f
unfolding tally
tally_mono v w h zero f = omega arith
tally_mono v w h (suc n) f = omega (arith, h (f n), tally_mono v w h n f)
