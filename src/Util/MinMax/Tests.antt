-- ===== src/Util/MinMax/Tests.antt =====
-- util/minmax.h at a few integers.
use helos.Prelude.{◌≡◌, refl}
use helos.Prelude.Int.{pos, negsuc}
use helos.Util.MinMax.{intmin, intmax, intmin3, intmax3, intminmax}

three_ways :
    (intmin3 (pos 4) (negsuc 1) (pos 0) ≡ negsuc 1) × (intmax3 (pos 4) (negsuc 1) (pos 9) ≡ pos 9)
unfolding intmin3 intmax3
three_ways = (refl, refl)

two_ways : (intmin (pos 4) (pos 3) ≡ pos 3) × (intmax (negsuc 4) (negsuc 3) ≡ negsuc 3)
unfolding intmin intmax
two_ways = (refl, refl)

clamped : intminmax (negsuc 4) (pos 0) (pos 9) ≡ pos 0
unfolding intminmax
clamped = refl
