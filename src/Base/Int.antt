-- ===== src/Base/Int.antt =====
-- Signed integers over the native numbers, and the value that a two's complement pattern stands for.
use Prim.Native.Nat.{ℕ, ◌<◌, ◌+◌, ◌-◌, ◌%◌, ◌^◌}
use tiger.Base.{ltb, if◌then◌else◌}

-- `negsuc n` is -(n + 1).
pub data ℤ : Type 0 where
  pos : ℕ → ℤ
  negsuc : ℕ → ℤ

-- The integers that a two's complement word with this many values represents.
abbrev pub Fits : ℕ → ℤ → Type 0
Fits half (pos n) = n < half
Fits half (negsuc n) = n < half

-- A number as an `int`, and that `int` as a uint64_t.
unfoldable pub int_of : ℕ → ℤ
int_of n = if ltb (n % 2 ^ 32) (2 ^ 31) then pos (n % 2 ^ 32) else negsuc (2 ^ 32 - 1 - n % 2 ^ 32)

unfoldable pub widened_int : ℕ → ℕ
widened_int n = if ltb (n % 2 ^ 32) (2 ^ 31) then n % 2 ^ 32 else 2 ^ 64 - 2 ^ 32 + n % 2 ^ 32
