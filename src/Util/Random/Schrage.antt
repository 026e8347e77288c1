-- ===== src/Util/Random/Schrage.antt =====
-- Schrage's trick is right: no product overflows, and the result is the multiplication modulo kM.
use scal.Prelude.{ℕ, ◌*◌, ◌/◌, ◌%◌, ◌^◌, ◌≤◌, ◌<◌, ◌≡◌, arith}
use scal.Util.Random.{pseudorand, schrage, modulus, multiplier, quotient, remainder}

-- From a seed between 1 and kM - 1 the next seed is `kA * seed` modulo kM, which lies in that range
-- again, so the generator never sticks at 0; and its two products fit an int32_t, so neither of them
-- wraps around.
pub pseudorand_lem :
    (seed : ℕ)
    → 1 ≤ seed
    → seed < modulus
    → (pseudorand seed ≡ multiplier * seed % modulus)
      × (1 ≤ pseudorand seed)
      × (pseudorand seed < modulus)
      × (multiplier * (seed % quotient) < 2 ^ 31)
      × (remainder * (seed / quotient) < 2 ^ 31)
unfolding pseudorand schrage
pseudorand_lem seed lo hi = ground arith
