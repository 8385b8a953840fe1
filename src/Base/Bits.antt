-- ===== src/Base/Bits.antt =====
-- `&` with a low mask, with a high mask and with a predecessor, as arithmetic at every width.
use Prim.Native.Nat.{
  ℕ, zero, suc, ◌+◌, ◌-◌, ◌*◌, ◌/◌, ◌%◌, ◌^◌, ◌≤◌, ◌<◌, min, bit_and, digits, bit_and-bitwise,
}
use mathlib.Core.Path.{◌≡◌, refl, ap, ◌∙◌}
use native.Mathlib.Nat.{
  pow-suc, pow-le-pow_right, one-le-pow, div-add-mod', mod-lt, mod-eq_of_lt, mul-add-mod_self_right,
}
use native.Mathlib.Decide.{dec_lt}
use native.Mathlib.Omega.{arith}

-- What the native `&` stands for: the recursion on binary digits, here on the fuel `f`.
abbrev by_digits : ℕ → ℕ → ℕ → ℕ
by_digits f x y = digits (λ _. zero) min f x y

by_digits_enough : (f g x y : ℕ) → x ≤ f → x ≤ g → by_digits f x y ≡ by_digits g x y
by_digits_enough zero zero x y p q = refl
by_digits_enough zero (suc g) zero y p q = refl
by_digits_enough zero (suc g) (suc x) y p q = absurd (omega arith)
by_digits_enough (suc f) zero zero y p q = refl
by_digits_enough (suc f) zero (suc x) y p q = absurd (omega arith)
by_digits_enough (suc f) (suc g) zero y p q = refl
by_digits_enough (suc f) (suc g) (suc x) y p q =
    omega (arith, by_digits_enough f g (suc x / 2) (y / 2) (omega arith) (omega arith))

zero-bit_and : (y : ℕ) → bit_and 0 y ≡ 0
zero-bit_and y = bit_and-bitwise 0 y

-- The lowest digit apart.
bit_and-digit : (x y : ℕ) → bit_and x y ≡ bit_and (x / 2) (y / 2) * 2 + min (x % 2) (y % 2)
bit_and-digit zero y = omega (arith, zero-bit_and y, zero-bit_and (y / 2))
bit_and-digit (suc x) y = omega (
  arith,
  bit_and-bitwise (suc x) y,
  bit_and-bitwise (suc x / 2) (y / 2),
  by_digits_enough x (suc x / 2) (suc x / 2) (y / 2) (omega arith) (omega arith),
)

-- Induction on a bound for the first operand, which halves.
zero_mask : (f x : ℕ) → x ≤ f → bit_and x 0 ≡ 0
zero_mask f zero h = zero-bit_and 0
zero_mask zero (suc x) h = absurd (omega arith)
zero_mask (suc f) (suc x) h =
    omega (arith, bit_and-digit (suc x) 0, zero_mask f (suc x / 2) (omega arith))

pub bit_and-zero : (x : ℕ) → bit_and x 0 ≡ 0
bit_and-zero x = zero_mask x x (omega arith)

same : (f x : ℕ) → x ≤ f → bit_and x x ≡ x
same f zero h = zero-bit_and 0
same zero (suc x) h = absurd (omega arith)
same (suc f) (suc x) h =
    omega (arith, bit_and-digit (suc x) (suc x), same f (suc x / 2) (omega arith))

bit_and_self : (x : ℕ) → bit_and x x ≡ x
bit_and_self x = same x x (omega arith)

-- Division by `2 ^ suc k` takes the lowest digit off first.
pub mod-double : (k x : ℕ) → x % 2 ^ suc k ≡ 2 * (x / 2 % 2 ^ k) + x % 2
mod-double k x =
    ap (λ (t : ℕ). t % 2 ^ suc k) split
    ∙ (mul-add-mod_self_right q (2 ^ suc k) low ∙ mod-eq_of_lt small)
  where
    q : ℕ
    q = x / 2 / 2 ^ k

    low : ℕ
    low = 2 * (x / 2 % 2 ^ k) + x % 2

    split : x ≡ q * 2 ^ suc k + low
    split = omega (arith, div-add-mod' (x / 2) (2 ^ k), ap (λ (t : ℕ). q * t) (pow-suc 2 k))

    small : low < 2 ^ suc k
    small = omega (arith, pow-suc 2 k, one-le-pow k 2, mod-lt (x / 2) {m = 2 ^ k})

pub bit_and_low_mask : (k x : ℕ) → bit_and x (2 ^ k - 1) ≡ x % 2 ^ k
bit_and_low_mask zero x = omega (arith, bit_and-zero x)
bit_and_low_mask (suc k) x = omega (
  arith,
  bit_and-digit x (2 ^ suc k - 1),
  ap (λ (t : ℕ). bit_and (x / 2) t) half,
  bit_and_low_mask k (x / 2),
  mod-double k x,
  pow-suc 2 k,
  one-le-pow k 2,
)
  where
    half : (2 ^ suc k - 1) / 2 ≡ 2 ^ k - 1
    half = omega (arith, pow-suc 2 k, one-le-pow k 2)

-- The mask `~(2 ^ k - 1)` of a word of `w` bits clears the low `k` bits.
pub bit_and_high_mask : (k w x : ℕ) → k ≤ w → x < 2 ^ w → bit_and x (2 ^ w - 2 ^ k) ≡ x - x % 2 ^ k
bit_and_high_mask zero w x h lt =
    omega (arith, bit_and_low_mask w x, mod-eq_of_lt {n = x} {m = 2 ^ w} lt)
bit_and_high_mask (suc k) zero x h lt = absurd (omega arith)
bit_and_high_mask (suc k) (suc w) x h lt = omega (
  arith,
  bit_and-digit x (2 ^ suc w - 2 ^ suc k),
  ap (λ (t : ℕ). bit_and (x / 2) t) half,
  bit_and_high_mask k w (x / 2) (omega arith) (omega (arith, pow-suc 2 w)),
  mod-double k x,
  pow-suc 2 k,
  pow-suc 2 w,
)
  where
    half : (2 ^ suc w - 2 ^ suc k) / 2 ≡ 2 ^ w - 2 ^ k
    half = omega (arith, pow-suc 2 k, pow-suc 2 w)

-- `x & (x - 1)` is zero for a positive number only if it is a power of two.
power_of_two : (f x : ℕ) → x ≤ f → 0 < x → bit_and x (x - 1) ≡ 0 → (k : ℕ) × (x ≡ 2 ^ k)
power_of_two zero x h pos e = absurd (omega arith)
power_of_two (suc f) x h pos e = elim (dec_lt 0 (x % 2)) [
  | yes odd ↦ (
    0,
    omega (
      arith,
      bit_and-digit x (x - 1),
      ap (λ (t : ℕ). bit_and (x / 2) t) (odd_pred odd),
      bit_and_self (x / 2),
    ),
  )
  | no even ↦
      let (k, ih) = power_of_two f (x / 2) (omega arith) (omega arith) (
        omega
          (arith, bit_and-digit x (x - 1), ap (λ (t : ℕ). bit_and (x / 2) t) (even_pred even))) in
      (suc k, omega (arith, pow-suc 2 k))
]
  where
    odd_pred : 0 < x % 2 → (x - 1) / 2 ≡ x / 2
    odd_pred odd = omega arith

    even_pred : ¬ (0 < x % 2) → (x - 1) / 2 ≡ x / 2 - 1
    even_pred even = omega arith

pub bit_and_pred : (x : ℕ) → 0 < x → bit_and x (x - 1) ≡ 0 → (k : ℕ) × (x ≡ 2 ^ k)
bit_and_pred x pos e = power_of_two x x (omega arith) pos e

pub pow-le : (k w : ℕ) → k ≤ w → 2 ^ k ≤ 2 ^ w
pow-le k w h = pow-le-pow_right {n = 2} (omega arith) h

-- A smaller power of two divides a larger one.
pub pow-mod : (k n : ℕ) → k ≤ n → 2 ^ n % 2 ^ k ≡ 0
pow-mod zero n h = omega arith
pow-mod (suc k) zero h = absurd (omega arith)
pow-mod (suc k) (suc n) h = omega (
  arith,
  mod-double k (2 ^ suc n),
  pow-suc 2 n,
  pow-mod k n (omega arith),
  ap (λ (t : ℕ). t % 2 ^ k) {x = 2 ^ suc n / 2} {y = 2 ^ n} (omega (arith, pow-suc 2 n)),
)
