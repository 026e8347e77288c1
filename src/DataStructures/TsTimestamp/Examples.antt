-- ===== src/DataStructures/TsTimestamp/Examples.antt =====
-- Stamps of each kind, and the theorems about them.
use scal.Prelude.{ℕ, ◌≡◌, ◌≤◌, true, [], ◌∷◌, All, arith, refl, some}
use scal.DataStructures.TsTimestamp.{
  Stamp, is_later, set_interval, delayed, set_stuttering, latest, max,
}
use scal.DataStructures.TsTimestamp.Clocks.{set_stuttering-later}

abbrev unset : Stamp
unset = record { first = 0; second = 0 }

abbrev from_to : ℕ → ℕ → Stamp
from_to a b = record { first = a; second = b }

waits_for_the_delay : set_interval 5 10 100 (101 ∷ 104 ∷ 105 ∷ []) 16 ≡ some (from_to 10 16)
unfolding set_interval delayed
waits_for_the_delay = refl

latest_of_three : latest 0 (3 ∷ 7 ∷ 5 ∷ []) ≡ 7
unfolding latest max
latest_of_three = refl

set_stuttering-later_example :
    All
      (λ c.
        (s : Stamp) → s.first ≤ c → is_later (set_stuttering 1 (3 ∷ 7 ∷ 5 ∷ []) unset).0 s ≡ true)
      (3 ∷ 7 ∷ 5 ∷ [])
    × All
        (λ c. c ≤ (set_stuttering 1 (3 ∷ 7 ∷ 5 ∷ []) unset).0.first)
        (set_stuttering 1 (3 ∷ 7 ∷ 5 ∷ []) unset).1
set_stuttering-later_example =
    set_stuttering-later 1 (3 ∷ 7 ∷ 5 ∷ []) unset (omega (arith, latest_of_three))
