-- ===== src/Util/AtomicValue/Wide.antt =====
-- src/util/atomic_value128.h: 64 bits of value above 64 bits of counter.
use scal.Prelude.{ℕ, ◌+◌, ◌*◌, ◌/◌, ◌%◌, ◌^◌, Bool, true, false, List, [], ◌∷◌, ◌==◌, if◌then◌else◌}

unfoldable pub aba : ℕ → ℕ
aba raw = raw % 2 ^ 64

unfoldable pub value : ℕ → ℕ
value raw = raw / 2 ^ 64

unfoldable pub weak_set_value : ℕ → ℕ → ℕ
weak_set_value memory v = memory % 2 ^ 64 + v * 2 ^ 64

unfoldable pub weak_set_aba : ℕ → ℕ → ℕ
weak_set_aba memory a = memory / 2 ^ 64 * 2 ^ 64 + a

unfoldable pub init : ℕ → ℕ → ℕ
unfolding weak_set_value weak_set_aba
init v a = weak_set_aba (weak_set_value 0 v) a

unfoldable pub cas : ℕ → ℕ → ℕ → ℕ × Bool
cas memory expected newcp = if memory == expected then (newcp, true) else (memory, false)

-- The retry loops. The list holds, for each round, what the memory is when that round's exchange is
-- tried: other threads may have written since the round's read. After the list nobody interferes.
unfoldable pub set_value : List ℕ → ℕ → ℕ → ℕ
set_value [] memory v = memory % 2 ^ 64 + v * 2 ^ 64
set_value (m ∷ later) memory v =
    let again = set_value later m v in
    let new_memory = memory % 2 ^ 64 + v * 2 ^ 64 in if m == memory then new_memory else again

unfoldable pub set_aba : List ℕ → ℕ → ℕ → ℕ
set_aba [] memory a = memory / 2 ^ 64 * 2 ^ 64 + a
set_aba (m ∷ later) memory a =
    let again = set_aba later m a in
    let new_memory = memory / 2 ^ 64 * 2 ^ 64 + a in if m == memory then new_memory else again

unfoldable pub weak_set_raw : (memory raw : ℕ) → ℕ
weak_set_raw memory raw = raw

unfoldable pub set_raw : List ℕ → (memory new_raw : ℕ) → ℕ
set_raw [] memory new_raw = new_raw
set_raw (m ∷ later) memory new_raw =
    let again = set_raw later m new_raw in if m == memory then new_raw else again
