-- ===== src/Util/MinMax.antt =====
-- util/minmax.h, on `int` read as an integer.
mod Tests
use helos.Prelude.{if◌then◌else◌}
use helos.Prelude.Int.{ℤ, ltb_ℤ, ◌≤ℤ◌}

pub intmin : ℤ → ℤ → ℤ
intmin x y = if ltb_ℤ x y then x else y

pub intmax : ℤ → ℤ → ℤ
intmax x y = if ltb_ℤ y x then x else y

unfoldable pub intmin3 : ℤ → ℤ → ℤ → ℤ
intmin3 x y z = if ltb_ℤ x y then (if ltb_ℤ x z then x else z) else (if ltb_ℤ y z then y else z)

unfoldable pub intmax3 : ℤ → ℤ → ℤ → ℤ
intmax3 x y z = if ltb_ℤ y x then (if ltb_ℤ z x then x else z) else (if ltb_ℤ z y then y else z)

unfoldable pub intminmax : ℤ → ℤ → ℤ → ℤ
intminmax x min max = if ltb_ℤ x min then min else if ltb_ℤ max x then max else x
