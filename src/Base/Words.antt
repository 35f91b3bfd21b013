-- ===== src/Base/Words.antt =====
-- Unsigned 32-bit words and bytes as native numbers, with the wrap-around written out.
use Prim.Native.Nat.{ℕ, ◌+◌, ◌-◌, ◌%◌, ◌^◌}
use mathlib.Core.Bool.{Bool, ◌||◌}
use mega65fs.Base.Tests.{leb, ◌==◌}

abbrev pub u32 : ℕ → ℕ
u32 x = x % 2 ^ 32

-- `a - b` in unsigned 32-bit arithmetic, for b below 2^32.
abbrev pub sub32 : ℕ → ℕ → ℕ
sub32 a b = (a + 2 ^ 32 - b) % 2 ^ 32

abbrev pub is_end : ℕ → Bool
is_end c = leb 0xffffff8 c

-- `c == 0 || c >= FAT32_MIN_END_OF_CLUSTER_MARKER`: no cluster number.
abbrev pub no_cluster : ℕ → Bool
no_cluster c = c == 0 || is_end c
