-- ===== src/Util/Random/Examples.antt =====
-- The generator's first values, and its theorem at a seed.
use scal.Prelude.{◌*◌, ◌/◌, ◌%◌, ◌^◌, ◌≤◌, ◌<◌, ◌≡◌, refl, arith}
use scal.Util.Random.{pseudorand, modulus, multiplier, quotient, remainder}
use scal.Util.Random.Schrage.{pseudorand_lem}

from_one : pseudorand (pseudorand 1) ≡ 282475249
unfolding pseudorand
from_one = refl

pseudorand_lem_example :
    (pseudorand 123456789 ≡ 469049721)
    × (1 ≤ pseudorand 123456789)
    × (pseudorand 123456789 < modulus)
    × (multiplier * (123456789 % quotient) < 2 ^ 31)
    × (remainder * (123456789 / quotient) < 2 ^ 31)
pseudorand_lem_example = pseudorand_lem 123456789 (omega arith) (omega arith)
