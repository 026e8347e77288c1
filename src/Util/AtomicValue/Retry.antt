-- ===== src/Util/AtomicValue/Retry.antt =====
-- The retry loops of the 128-bit layout under interference.
use scal.Prelude.{ℕ, ◌^◌, ◌<◌, ◌≡◌, List, [], ◌∷◌, arith, ◌==◌, if◌then◌else◌}
use scal.Util.AtomicValue.Wide.{aba, value, set_value, set_aba}

-- The memory at the exchange that succeeds: the first that is unchanged since the round's read.
abbrev pub settled : List ℕ → ℕ → ℕ
settled [] memory = memory
settled (m ∷ later) memory = if m == memory then m else settled later m

-- However the other threads write, `set_value` ends with the new value beside the counter that
-- stood in memory at its exchange, so no write of another thread is lost but to the value itself.
pub set_value-atomic :
    (later : List ℕ) (memory v : ℕ)
    → (value (set_value later memory v) ≡ v)
      × (aba (set_value later memory v) ≡ aba (settled later memory))
unfolding value aba set_value
set_value-atomic [] memory v = omega arith
set_value-atomic (m ∷ later) memory v = ground (arith, set_value-atomic later m v)

-- The same of `set_aba`: the new counter beside the value that stood in memory at its exchange.
pub set_aba-atomic :
    (later : List ℕ) (memory a : ℕ)
    → a < 2 ^ 64
    → (aba (set_aba later memory a) ≡ a)
      × (value (set_aba later memory a) ≡ value (settled later memory))
unfolding value aba set_aba
set_aba-atomic [] memory a h = omega arith
set_aba-atomic (m ∷ later) memory a h = ground (arith, set_aba-atomic later m a)
