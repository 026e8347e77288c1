-- ===== src/Util/AtomicValue/Examples.antt =====
-- Runs of the packed words, and the theorems about them at concrete words.
use scal.Prelude.{◌*◌, ◌+◌, ◌^◌, ◌≡◌, ◌↔◌, ◌<◌, true, refl, [], ◌∷◌, arith}
use scal.Util.AtomicValue.Base.{aba, cas}
use scal.Util.AtomicValue.NoOffset
use scal.Util.AtomicValue.Offset
use scal.Util.AtomicValue.Wide
use scal.Util.AtomicValue.Layout.{Wide_round_trip, cas-true_iff}
use scal.Util.AtomicValue.Retry.{settled, set_value-atomic, set_aba-atomic}

Wide_layout : Wide.init 5 9 ≡ 5 * 2 ^ 64 + 9
unfolding Wide.init
Wide_layout = refl

Wide_round_trip_example :
    (Wide.value (Wide.init 63 11) ≡ 63)
    × (Wide.aba (Wide.init 63 11) ≡ 11)
    × (Wide.value (Wide.weak_set_aba (Wide.init 63 11) 4) ≡ 63)
    × (Wide.aba (Wide.weak_set_value (Wide.init 63 11) 72) ≡ 11)
    × (Wide.init 63 11 < 2 ^ 128)
Wide_round_trip_example = Wide_round_trip 63 11 4 72 (omega arith) (omega arith) (omega arith)

cas-true_iff_example :
    (((cas 511 (NoOffset.init 63 15) 0).1 ≡ true) ↔ ((NoOffset.value 511 ≡ 63) × (aba 511 ≡ 7)))
    × (((cas 511 (Offset.init 504 15) 0).1 ≡ true) ↔ ((Offset.value 511 ≡ 504) × (aba 511 ≡ 7)))
    × (((Wide.cas 511 (Wide.init 63 15) 0).1 ≡ true)
        ↔ ((Wide.value 511 ≡ 63) × (Wide.aba 511 ≡ 15)))
cas-true_iff_example = cas-true_iff 511 63 15 0 (omega arith) (omega arith)

set_value-atomic_example :
    (Wide.value (Wide.set_value (9 ∷ 9 ∷ []) 5 7) ≡ 7)
    × (Wide.aba (Wide.set_value (9 ∷ 9 ∷ []) 5 7) ≡ Wide.aba (settled (9 ∷ 9 ∷ []) 5))
set_value-atomic_example = set_value-atomic (9 ∷ 9 ∷ []) 5 7

set_aba-atomic_example :
    (Wide.aba (Wide.set_aba (9 ∷ 9 ∷ []) 5 7) ≡ 7)
    × (Wide.value (Wide.set_aba (9 ∷ 9 ∷ []) 5 7) ≡ Wide.value (settled (9 ∷ 9 ∷ []) 5))
set_aba-atomic_example = set_aba-atomic (9 ∷ 9 ∷ []) 5 7 (omega arith)
