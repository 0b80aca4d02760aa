-- ===== src/Prelude/Float.antt =====
-- The float64 arithmetic that the sources do: a parameter, with the constants that they write.
use mathlib.Core.Bool.{Bool}

pub record Floats : Type 1 where
  pub Float : Type 0
  -- 0.0 and 1.0
  pub zero_f : Float
  pub one_f : Float
  -- 0.9, and 0.1*1.0, a constant expression
  pub nine_tenths : Float
  pub one_tenth : Float
  pub mul_f : Float → Float → Float
  pub add_f : Float → Float → Float
  -- `==` and `>`
  pub eq_f : Float → Float → Bool
  pub gt_f : Float → Float → Bool
