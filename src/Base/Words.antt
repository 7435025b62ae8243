-- ===== src/Base/Words.antt =====
-- Unsigned machine words: the modulus of `size_t`, `unsigned long` and `UINT64` (64 bits on the
-- program's platform) and of `unsigned int`, and subtraction that wraps.
use Prim.Native.Nat.{ℕ, ◌+◌, ◌-◌, ◌%◌, ◌≤◌, ◌<◌, ◌^◌}
use mathlib.Core.Path.{◌≡◌}
use native.Mathlib.Omega.{arith}

abbrev pub u64_mod : ℕ
u64_mod = 2 ^ 64

abbrev pub u32_mod : ℕ
u32_mod = 2 ^ 32

-- `a - b` on a 64-bit unsigned type.
abbrev pub sub64 : ℕ → ℕ → ℕ
sub64 a b = (a + u64_mod - b) % u64_mod

-- `a - b` on a 32-bit unsigned type.
abbrev pub sub32 : ℕ → ℕ → ℕ
sub32 a b = (a + u32_mod - b) % u32_mod

pub sub64-le : (a b : ℕ) → a < u64_mod → b ≤ a → sub64 a b ≡ a - b
sub64-le a b h k = omega arith

pub sub32-le : (a b : ℕ) → a < u32_mod → b ≤ a → sub32 a b ≡ a - b
sub32-le a b h k = omega arith
