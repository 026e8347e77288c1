-- ===== src/Util/Random.antt =====
-- src/util/random.cc: Schrage's form of the minimal standard generator.
pub mod Schrage
mod Examples
use scal.Prelude.{ℕ, ◌+◌, ◌-◌, ◌*◌, ◌/◌, ◌%◌, ◌^◌, ltb, if◌then◌else◌}

abbrev pub multiplier : ℕ
multiplier = 16807

abbrev pub modulus : ℕ
modulus = 2147483647

abbrev pub quotient : ℕ
quotient = 127773

abbrev pub remainder : ℕ
remainder = 2836

-- `kA * lo - kR * hi` on uint32_t, as the bits of the int32_t `seed`.
unfoldable pub schrage : ℕ → ℕ
schrage seed =
    (multiplier * (seed % quotient) % 2 ^ 32 + 2 ^ 32 - remainder * (seed / quotient) % 2 ^ 32)
    % 2 ^ 32

-- The new seed, which is also the result. A seed is the 32 bits of an int32_t, read as uint32_t by
-- the divisions; it is negative from 2 ^ 31 on, and then kM is added to it, modulo 2 ^ 32.
unfoldable pub pseudorand : ℕ → ℕ
unfolding schrage
pseudorand seed =
    let next = schrage seed in if ltb next (2 ^ 31) then next else (next + modulus) % 2 ^ 32
