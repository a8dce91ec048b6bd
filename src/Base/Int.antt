-- ===== src/Base/Int.antt =====
-- Go's `int` on a 64-bit platform, for the arguments that may be negative.
use Prim.Native.Nat.{ℕ, ◌-◌, ◌^◌, ◌%◌}
use limnet.Base.Tests.{ltb, if◌then◌else◌}

-- `negsuc n` is -(n + 1).
pub data ℤ : Type 0 where
  pos : ℕ → ℤ
  negsuc : ℕ → ℤ

-- The test `n <= 0` is `pos_part n == 0`, and past it `n` is `pos_part n`.
abbrev pub pos_part : ℤ → ℕ
pos_part (pos n) = n
pos_part (negsuc n) = 0

-- A sum of two non-negative ints, with the wrap-around of 64-bit two's complement.
abbrev pub wrap_int : ℕ → ℤ
wrap_int x = let y = x % 2 ^ 64 in if ltb y (2 ^ 63) then pos y else negsuc (2 ^ 64 - y - 1)
