-- ===== src/DataStructures/TsTimestamp/Clocks.antt =====
-- The stamps that come from counters.
use scal.Prelude.{
  ℕ, ◌+◌, ◌^◌, ◌%◌, ◌≤◌, ◌<◌, ◌≡◌, true, List, [], ◌∷◌, All, All-imp, All-set, arith,
}
use scal.DataStructures.TsTimestamp.{
  Stamp, is_later, init_sentinel, init_top, set_counter, max, latest, set_stuttering,
}

-- Before the counter wraps around, the stamp that is taken is later than every stamp below the
-- counter, and both are below the counter then, so stamps get later and later; it is later than the
-- sentinel, and the top stamp is later than it.
pub set_counter-later :
    (clock : ℕ) (earlier r s : Stamp)
    → earlier.first < clock
    → clock + 1 < 2 ^ 64
    → let taken = set_counter clock r in
      (is_later taken.0 earlier ≡ true)
      × (taken.0.first < taken.1)
      × (earlier.first < taken.1)
      × (is_later taken.0 (init_sentinel s) ≡ true)
      × (is_later (init_top s) taken.0 ≡ true)
unfolding set_counter is_later init_sentinel init_top
set_counter-later clock earlier r s lt fits =
    (ground arith, ground arith, ground arith, ground arith, ground arith)

latest-le :
    (t : ℕ) (clocks : List ℕ) → (t ≤ latest t clocks) × All (λ c. c ≤ latest t clocks) clocks
unfolding latest max
latest-le t [] = (omega arith, tt)
latest-le t (c ∷ clocks) =
    let rest = latest-le (max t c) clocks in
    (ground (arith, rest.0), (ground (arith, rest.0), rest.1))

-- A stamp that one thread takes is later than every stamp that is not ahead of the clock of some
-- thread, and no clock is ahead of it then. The clocks must not wrap around.
pub set_stuttering-later :
    (thread_id : ℕ) (clocks : List ℕ) (r : Stamp)
    → latest 0 clocks + 1 < 2 ^ 64
    → let taken = set_stuttering thread_id clocks r in
      All (λ c. (s : Stamp) → s.first ≤ c → is_later taken.0 s ≡ true) clocks
      × All (λ c. c ≤ taken.0.first) taken.1
unfolding set_stuttering is_later
set_stuttering-later thread_id clocks r fits =
    let le = (latest-le 0 clocks).1 in
    (
      All-imp clocks (λ c h s k. ground (arith, h, k, fits)) le,
      All-set (λ c. c ≤ (latest 0 clocks + 1) % 2 ^ 64) clocks thread_id
          ((latest 0 clocks + 1) % 2 ^ 64) (omega arith)
          (All-imp clocks (λ c h. omega (arith, h, fits)) le),
    )
