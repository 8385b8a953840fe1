-- ===== src/Base/Words.antt =====
-- Machine words of the program as native numbers. An `int` is its 32-bit pattern.
use Prim.Native.Nat.{ℕ, ◌+◌, ◌-◌, ◌*◌, ◌%◌, ◌^◌}
use mathlib.Core.Bool.{Bool}
use target_syslibs.Base.Tests.{ltb, if◌then◌else◌}

abbrev pub u32 : ℕ → ℕ
u32 x = x % 2 ^ 32

-- `size_t`, `uint64_t`, `uintptr_t` and pointers
abbrev pub u64 : ℕ → ℕ
u64 x = x % 2 ^ 64

abbrev pub add64 : ℕ → ℕ → ℕ
add64 a b = u64 (a + b)

abbrev pub sub64 : ℕ → ℕ → ℕ
sub64 a b = u64 (a + 2 ^ 64 - b)

abbrev pub mul64 : ℕ → ℕ → ℕ
mul64 a b = u64 (a * b)

-- An `int` that becomes a `size_t` is sign-extended.
abbrev pub sign_extend : ℕ → ℕ
sign_extend i = if ltb i (2 ^ 31) then i else i + 2 ^ 64 - 2 ^ 32

-- `a < b` between two values of type `int`.
abbrev pub int_lt : ℕ → ℕ → Bool
int_lt a b = ltb (u32 (a + 2 ^ 31)) (u32 (b + 2 ^ 31))

-- `a < b` between two values of a signed 64-bit type.
abbrev pub long_lt : ℕ → ℕ → Bool
long_lt a b = ltb (u64 (a + 2 ^ 63)) (u64 (b + 2 ^ 63))

-- The rounds of `for (i = 0; i < n; i++)` with `int i, n`.
abbrev pub rounds : ℕ → ℕ
rounds n = if ltb n (2 ^ 31) then n else 0
