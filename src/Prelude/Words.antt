-- ===== src/Prelude/Words.antt =====
-- Unsigned machine words: `uint64_t`, `size_t` (64 bits on x64 Windows) and `DWORD` (32 bits).
-- A value is a plain number; each operation that can wrap says so by its modulus.
use Prim.Native.Nat.{ℕ, ◌+◌, ◌-◌, ◌*◌, ◌%◌, ◌^◌, ◌≤◌, ◌<◌}
use mathlib.Core.Path.{◌≡◌}
use native.Mathlib.Omega.{arith}

abbrev pub u64_mod : ℕ
u64_mod = 2 ^ 64

abbrev pub u32_mod : ℕ
u32_mod = 2 ^ 32

-- UINT64_MAX
abbrev pub uint64_max : ℕ
uint64_max = 18446744073709551615

abbrev pub add64 : ℕ → ℕ → ℕ
add64 a b = (a + b) % u64_mod

-- The modulus is added first, since `-` on ℕ stops at 0.
abbrev pub sub64 : ℕ → ℕ → ℕ
sub64 a b = (a + u64_mod - b % u64_mod) % u64_mod

abbrev pub mul64 : ℕ → ℕ → ℕ
mul64 a b = (a * b) % u64_mod

-- A difference of two readings in order is the plain difference.
pub sub64-eq-sub : (a b : ℕ) → a < u64_mod → b ≤ a → sub64 a b ≡ a - b
sub64-eq-sub a b h k = omega arith
