-- ===== src/Timer/Clock.antt =====
-- The time functions of bf_sys_timer.c. The system's clocks are a parameter; `time_t`, `suseconds_t`
-- and `long` have 64 bits, an `int` is its 32-bit pattern.
use target_syslibs.Base.{
  ℕ, ◌^◌, ◌<◌, ◌≤◌, ◌≡◌, refl, inl, inr, true, Option, none, some, ltb, lt→ltb, Bool-cases, arith,
}
use target_syslibs.Base.Words.{u32, sign_extend, int_lt}
use target_syslibs.Sem.Store.{minus_one}

pub data ClockId : Type 0 where
  clock_monotonic clock_realtime : ClockId

-- The calls of the system over its state. A read gives the seconds and the fraction, or fails.
pub record Clocks (W : Type 0) : Type 0 where
  pub sleep : ℕ → W → ℕ × W
  pub usleep : ℕ → W → ℕ × W
  pub settimeofday : (sec usec : ℕ) → W → ℕ × W
  pub gettimeofday : W → Option (ℕ × ℕ)
  pub clock_settime : ClockId → (sec nsec : ℕ) → W → ℕ × W
  pub clock_gettime : ClockId → W → Option (ℕ × ℕ)

-- A time that is read goes to two variables of type `int`, which a failure leaves as they are.
abbrev pub stored : Option (ℕ × ℕ) → (sec frac : ℕ) → ℕ × ℕ × ℕ
stored none sec frac = (minus_one, sec, frac)
stored (some t) sec frac = (0, u32 t.0, u32 t.1)

module _ {W : Type 0} (c : Clocks W) where
  unfoldable pub bf_sys_sleep : ℕ → W → ℕ × W
  bf_sys_sleep seconds w = c.sleep seconds w

  unfoldable pub bf_sys_usleep : ℕ → W → ℕ × W
  bf_sys_usleep micro_seconds w = c.usleep micro_seconds w

  unfoldable pub bf_sys_settimeofday : (sec usec : ℕ) → W → ℕ × W
  bf_sys_settimeofday sec usec w = c.settimeofday (sign_extend sec) (sign_extend usec) w

  unfoldable pub bf_sys_gettimeofday : (sec usec : ℕ) → W → ℕ × ℕ × ℕ
  bf_sys_gettimeofday sec usec w = stored (c.gettimeofday w) sec usec

  unfoldable pub bf_sys_setclocktime : (sec nsec : ℕ) → W → ℕ × W
  bf_sys_setclocktime sec nsec w =
      c.clock_settime clock_monotonic (sign_extend sec) (sign_extend nsec) w

  unfoldable pub bf_sys_getclocktime : (sec nsec : ℕ) → W → ℕ × ℕ × ℕ
  bf_sys_getclocktime sec nsec w = stored (c.clock_gettime clock_monotonic w) sec nsec

-- What is documented of setting the time of day: microseconds outside 0 to 999999 are refused, and a
-- time that is set can be read.
pub record SetsTime {W : Type 0} (c : Clocks W) : Type 0 where
  pub bad_usec : (sec usec : ℕ) (w : W) → 1000000 ≤ usec → (c.settimeofday sec usec w).0 ≡ minus_one
  pub reads :
      (sec usec : ℕ) (w : W)
      → (c.settimeofday sec usec w).0 ≡ 0
      → c.gettimeofday (c.settimeofday sec usec w).1 ≡ some (sec, usec)

u32-sign_extend : (i : ℕ) → i < 2 ^ 32 → u32 (sign_extend i) ≡ i
u32-sign_extend i h = elim (Bool-cases (ltb i (2 ^ 31))) [
  | inl e ↦ rw (e) (omega arith)
  | inr e ↦ rw (e) (omega arith)
]

-- Where the system lets the time be set and read, a time that `bf_sys_settimeofday` sets with the
-- result 0 is what `bf_sys_gettimeofday` then reads.
pub gettimeofday-settimeofday :
    {W : Type 0} (c : Clocks W) (law : SetsTime c) (sec usec sec₀ usec₀ : ℕ) (w : W)
    → sec < 2 ^ 32
    → usec < 2 ^ 32
    → (bf_sys_settimeofday c sec usec w).0 ≡ 0
    → bf_sys_gettimeofday c sec₀ usec₀ (bf_sys_settimeofday c sec usec w).1 ≡ (0, sec, usec)
unfolding bf_sys_settimeofday bf_sys_gettimeofday
gettimeofday-settimeofday c law sec usec sec₀ usec₀ w hs hu ok =
    rw
      (
        law.reads (sign_extend sec) (sign_extend usec) w ok,
        u32-sign_extend sec hs,
        u32-sign_extend usec hu,
      )
      refl

-- From 2^31 seconds on the seconds that are read are below those of every time before.
time_turns_back :
    {W : Type 0} (c : Clocks W) (s₁ s₂ f₁ f₂ sec frac : ℕ) (w₁ w₂ : W)
    → c.gettimeofday w₁ ≡ some (s₁, f₁)
    → c.gettimeofday w₂ ≡ some (s₂, f₂)
    → s₁ < 2 ^ 31
    → 2 ^ 31 ≤ s₂
    → s₂ < 2 ^ 32
    → int_lt (bf_sys_gettimeofday c sec frac w₂).1 (bf_sys_gettimeofday c sec frac w₁).1 ≡ true
unfolding bf_sys_gettimeofday
time_turns_back c s₁ s₂ f₁ f₂ sec frac w₁ w₂ e₁ e₂ before late word =
    rw (e₁, e₂) (lt→ltb _ _ (omega arith))
