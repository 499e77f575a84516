-- ===== src/Prelude/Int.antt =====
-- The C++ type `int`, as a signed number.
use Prim.Native.Nat.{ℕ, ◌-◌, ◌%◌}
use vdi_cpp_wrapper.Prelude.Words.{u32_mod}

-- `negsuc n` is -(n + 1).
pub data ℤ : Type 0 where
  pos : ℕ → ℤ
  negsuc : ℕ → ℤ

-- The conversion of an `int` to a DWORD.
abbrev pub to_dword : ℤ → ℕ
to_dword (pos n) = n % u32_mod
to_dword (negsuc n) = u32_mod - 1 - n % u32_mod
