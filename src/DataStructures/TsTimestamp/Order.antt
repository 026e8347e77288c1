-- ===== src/DataStructures/TsTimestamp/Order.antt =====
-- `is_later` is a strict order, and the first and the last stamp are its ends.
use scal.Prelude.{ℕ, ◌+◌, ◌^◌, ◌≤◌, ◌<◌, ◌≡◌, true, false, arith, ◌↔◌, ◌-◌}
use scal.DataStructures.TsTimestamp.{
  Stamp, interval_is_later, interval_sentinel, interval_top, set_simulated,
}

-- A stamp that begins before it ends.
pub record IsInterval (t : Stamp) : Type 0 where
  pub ordered : t.first ≤ t.second

-- Among intervals, no stamp is later than itself, of two stamps at most one is later, and a stamp
-- that is later than a later one is later.
pub interval_is_later-order :
    (t u v : Stamp)
    → IsInterval t
    → IsInterval u
    → IsInterval v
    → (interval_is_later t t ≡ false)
      × (interval_is_later t u ≡ true → interval_is_later u t ≡ false)
      × (interval_is_later v u ≡ true → interval_is_later u t ≡ true → interval_is_later v t ≡ true)
unfolding interval_is_later
interval_is_later-order t u v it iu iv =
    (ground (arith, it), λ h. ground (arith, it, iu, h), λ h k. ground (arith, it, iu, iv, h, k))

-- A simulated stamp, of a time that is not 0 and whose end does not overflow, is an interval of the
-- given length that is later than the sentinel, and the top stamp is later than it unless it ends there. Of two of them, the one is
-- later exactly when it was taken more than the delay after the other.
pub set_simulated_lem :
    (delay now now' : ℕ)
    → 0 < now
    → now + delay < 2 ^ 64 - 1
    → IsInterval (set_simulated delay now)
      × (interval_is_later (set_simulated delay now) interval_sentinel ≡ true)
      × (interval_is_later interval_top (set_simulated delay now) ≡ true)
      × ((interval_is_later (set_simulated delay now') (set_simulated delay now) ≡ true)
          ↔ (now + delay < now'))
unfolding set_simulated interval_is_later interval_sentinel interval_top
set_simulated_lem delay now now' pos fits =
    (ground arith, ground arith, ground arith, (λ h. ground (arith, h), λ h. ground (arith, h)))
