-- ===== src/Float.antt =====
-- The float64 values of confidences. A finite one is a whole number of units of 2^-1074, so the
-- comparisons of the code are exact; no comparison holds of a NaN. An infinity is a value beyond all
-- finite ones.
use lidradar.Prelude.{ℕ, ◌*◌, ◌^◌, Bool, true, false, leb, ltb}

pub data Float64 : Type 0 where
  nan : Float64
  -- `minus n` is -(n + 1) units.
  minus : ℕ → Float64
  plus : ℕ → Float64

-- The float64 next to 0.85.
unfoldable pub strong : ℕ
strong = 7656119366529843 * 2 ^ 1021

unfoldable pub one_unit : ℕ
one_unit = 2 ^ 1074

-- `x >= 0.85`.
unfoldable pub is_strong : Float64 → Bool
is_strong Float64.nan = false
is_strong (Float64.minus n) = false
is_strong (Float64.plus n) = leb strong n

-- `x < 0 || x > 1`.
unfoldable pub outside_unit : Float64 → Bool
outside_unit Float64.nan = false
outside_unit (Float64.minus n) = true
outside_unit (Float64.plus n) = ltb one_unit n
