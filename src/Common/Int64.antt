-- ===== src/Common/Int64.antt =====
-- Go's int64 as its 64-bit pattern, a number below 2 ^ 64, with the signed comparisons.
use Prim.Native.Nat.{ℕ, ◌+◌, ◌-◌, ◌%◌, ◌^◌}
use mathlib.Core.Bool.{Bool}
use my_cache_go.Common.Tests.{ltb}

abbrev pub Int64 : Type 0
Int64 = ℕ

-- The literal -1.
abbrev pub minus_one : Int64
minus_one = 2 ^ 64 - 1

-- a + b and a - b, with Go's wrap-around.
abbrev pub add64 : Int64 → Int64 → Int64
add64 a b = (a + b) % 2 ^ 64

abbrev pub sub64 : Int64 → Int64 → Int64
sub64 a b = (a + 2 ^ 64 - b) % 2 ^ 64

-- a < b as signed numbers: the patterns are compared after a shift by 2 ^ 63.
abbrev pub lt64 : Int64 → Int64 → Bool
lt64 a b = ltb ((a + 2 ^ 63) % 2 ^ 64) ((b + 2 ^ 63) % 2 ^ 64)
