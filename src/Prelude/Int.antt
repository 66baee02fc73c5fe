-- ===== src/Prelude/Int.antt =====
-- Signed integers, and Go's 64-bit `int64` as a bit pattern below 2 ^ 64.
use Prim.Native.Nat.{ℕ, ◌+◌, ◌*◌, ◌%◌, ◌^◌, ◌<◌}
use mathlib.Core.Path.{◌≡◌}
use mathlib.Core.Bool.{Bool}
use native.Mathlib.Omega.{arith}
use cv_evaluator.Prelude.Tests.{leb, if◌then◌else◌}

-- `negsuc n` is -(n + 1).
pub data ℤ : Type 0 where
  pos : ℕ → ℤ
  negsuc : ℕ → ℤ

abbrev pub two_63 : ℕ
two_63 = 2 ^ 63

abbrev pub two_64 : ℕ
two_64 = 2 ^ 64

-- d *= 2
unfoldable pub double_i64 : ℕ → ℕ
double_i64 d = (d * 2) % two_64

-- a <= b, of the signed values
unfoldable pub le_i64 : ℕ → ℕ → Bool
le_i64 a b = leb ((a + two_63) % two_64) ((b + two_63) % two_64)

-- min(a, b)
unfoldable pub min_i64 : ℕ → ℕ → ℕ
unfolding le_i64
min_i64 a b = if le_i64 a b then a else b

-- On values that are not negative the signed test is the test on numbers.
pub le_i64-leb : (a b : ℕ) → a < two_63 → b < two_63 → le_i64 a b ≡ leb a b
unfolding le_i64
le_i64-leb a b h k = ground arith

pub double_i64_lem : (d : ℕ) → d < two_63 → double_i64 d ≡ d * 2
unfolding double_i64
double_i64_lem d h = ground arith
