-- ===== src/Prelude/Words.antt =====
-- The 64-bit arithmetic of Go: sums and products wrap around.
use golang_gin.Prelude.Tests.{ltb, if◌then◌else◌}
use golang_gin.Prelude.Int.{ℤ, pos, negsuc, ◌≤ℤ◌}
use Prim.Native.Nat.{ℕ, ◌-◌, ◌%◌}
use mathlib.Core.Path.{◌≡◌}
use native.Mathlib.Omega.{arith}

-- The signed value of 64 bits.
abbrev signed : ℕ → ℤ
signed b = if ltb b 9223372036854775808 then pos b else negsuc (18446744073709551615 - b)

unfoldable pub wrap64 : ℤ → ℤ
wrap64 (pos n) = signed (n % 18446744073709551616)
wrap64 (negsuc n) = signed (18446744073709551615 - n % 18446744073709551616)

pub record IsInt64 (a : ℤ) : Type 0 where
  pub above : negsuc 9223372036854775807 ≤ℤ a
  pub below : a ≤ℤ pos 9223372036854775807

-- A value in the range of `int64` does not wrap.
pub wrap64_id : (a : ℤ) → IsInt64 a → wrap64 a ≡ a
unfolding wrap64
wrap64_id a h = ground arith

-- What wraps is in the range.
pub wrap64-IsInt64 : (a : ℤ) → IsInt64 (wrap64 a)
unfolding wrap64
wrap64-IsInt64 a = ground arith
