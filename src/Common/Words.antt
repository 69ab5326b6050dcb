-- ===== src/Common/Words.antt =====
-- 32-bit words as native numbers: every operation wraps modulo 2 ^ 32. An `atomic_t` is kept as
-- its bit pattern.
use Prim.Native.Nat.{ℕ, ◌+◌, ◌-◌, ◌*◌, ◌%◌, ◌^◌, ◌≤◌}
use native.Mathlib.Omega.{arith}
use lrng.Common.Tests.{ltb, if◌then◌else◌}

abbrev pub u32_mod : ℕ
u32_mod = 2 ^ 32

-- The conversion to `u32`, and a result of `u32` arithmetic.
abbrev pub u32 : ℕ → ℕ
u32 x = x % 2 ^ 32

abbrev pub add32 : ℕ → ℕ → ℕ
add32 a b = (a + b) % 2 ^ 32

abbrev pub sub32 : ℕ → ℕ → ℕ
sub32 a b = (a + 2 ^ 32 - b % 2 ^ 32) % 2 ^ 32

abbrev pub mul32 : ℕ → ℕ → ℕ
mul32 a b = (a * b) % 2 ^ 32

-- `min_t(u32, a, b)` and `max_t(u32, a, b)`.
abbrev pub min_u32 : ℕ → ℕ → ℕ
min_u32 a b = if ltb a b then a else b

abbrev pub max_u32 : ℕ → ℕ → ℕ
max_u32 a b = if ltb b a then a else b

pub min_u32_bounds : (a b : ℕ) → (min_u32 a b ≤ a) × (min_u32 a b ≤ b)
min_u32_bounds a b = ground arith
