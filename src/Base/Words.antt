-- ===== src/Base/Words.antt =====
-- Machine words: an int64 or int32 is its bit pattern, a number below 2 ^ 64 or 2 ^ 32, and is
-- compared as signed.
use Prim.Native.Nat.{ℕ, ◌+◌, ◌%◌, ◌^◌}
use mathlib.Core.Bool.{Bool, false}
use mathlib.Core.Path.{◌≡◌}
use native.Mathlib.Omega.{arith}
use replicare.Base.Tests.{ltb}

-- `a > b` on int64 and on int32.
unfoldable pub gt64 : ℕ → ℕ → Bool
gt64 a b = ltb ((b + 2 ^ 63) % 2 ^ 64) ((a + 2 ^ 63) % 2 ^ 64)

unfoldable pub gt32 : ℕ → ℕ → Bool
gt32 a b = ltb ((b + 2 ^ 31) % 2 ^ 32) ((a + 2 ^ 31) % 2 ^ 32)

pub gt64_irrefl : (a : ℕ) → gt64 a a ≡ false
unfolding gt64
gt64_irrefl a = ground arith
