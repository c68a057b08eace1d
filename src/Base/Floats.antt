-- ===== src/Base/Floats.antt =====
-- Python's `float` and `int` where the program only compares and adds them.
use Prim.Native.Nat.{ℕ, suc, ◌+◌}
use mathlib.Core.Bool.{Bool}
use mathlib.Core.Option.{Option, none, some}
use clusy_crawler.Base.Tests.{ltb}

-- A number of a fixed small unit, `negsuc n` being -(n + 1).
pub data ℤ : Type 0 where
  pos : ℕ → ℤ
  negsuc : ℕ → ℤ

abbrev pub pos_part : ℤ → ℕ
pos_part (pos n) = n
pos_part (negsuc n) = 0

abbrev pub neg_part : ℤ → ℕ
neg_part (pos n) = 0
neg_part (negsuc n) = suc n

abbrev pub ltb_ℤ : ℤ → ℤ → Bool
ltb_ℤ a b = ltb (pos_part a + neg_part b) (pos_part b + neg_part a)

-- A `float` argument: a value in the program's time unit, or an infinity or NaN.
pub data Float : Type 0 where
  finite : ℤ → Float
  not_finite : Float

-- `math.isfinite(x) and x >= 0`, with the value where it holds.
abbrev pub non_negative : Float → Option ℕ
non_negative (finite (pos n)) = some n
non_negative (finite (negsuc n)) = none
non_negative not_finite = none
