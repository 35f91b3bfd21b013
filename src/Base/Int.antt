-- ===== src/Base/Int.antt =====
-- Signed C integers. `negsuc n` is -(n + 1).
use Prim.Native.Nat.{ℕ, ◌+◌, ◌-◌, ◌%◌, ◌^◌}
use mathlib.Core.Bool.{Bool, true, false}
use mega65fs.Base.Tests.{ltb, if◌then◌else◌}

pub data ℤ : Type 0 where
  pos : ℕ → ℤ
  negsuc : ℕ → ℤ

-- The value that the wrapper returns on failure.
abbrev pub minus_one : ℤ
minus_one = negsuc 0

abbrev pub is_nonneg : ℤ → Bool
is_nonneg (pos n) = true
is_nonneg (negsuc n) = false

abbrev pub to_nat : ℤ → ℕ
to_nat (pos n) = n
to_nat (negsuc n) = 0

-- `(int)x` of an unsigned 32-bit x.
abbrev pub to_int32 : ℕ → ℤ
to_int32 x = if ltb x (2 ^ 31) then pos x else negsuc (2 ^ 32 - x - 1)

-- `x + z` in unsigned 32-bit arithmetic, with an int z.
abbrev pub add_int32 : ℕ → ℤ → ℕ
add_int32 x (pos n) = (x + n) % 2 ^ 32
add_int32 x (negsuc n) = (x + 2 ^ 32 - (n + 1) % 2 ^ 32) % 2 ^ 32
