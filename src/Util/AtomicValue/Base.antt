-- ===== src/Util/AtomicValue/Base.antt =====
-- src/util/atomic_value64_base.h: what the two 64-bit layouts share.
use scal.Prelude.{ℕ, ◌+◌, ◌*◌, ◌/◌, ◌%◌, ◌^◌, Bool, true, false, ◌==◌, if◌then◌else◌}

abbrev pub aba_bits : ℕ
aba_bits = 3

-- `x & (max - kAbaMax)`
abbrev pub clear_aba : ℕ → ℕ
clear_aba x = x / 2 ^ aba_bits * 2 ^ aba_bits

-- `raw() & kAbaMax`
unfoldable pub aba : ℕ → ℕ
aba memory = memory % 2 ^ aba_bits

unfoldable pub set_aba : ℕ → ℕ → ℕ
set_aba memory a = clear_aba memory + a % 2 ^ aba_bits

unfoldable pub set_raw : (memory new_raw : ℕ) → ℕ
set_raw memory new_raw = new_raw

-- The new memory, and whether the exchange took place.
unfoldable pub cas : ℕ → ℕ → ℕ → ℕ × Bool
cas memory expected newcp = if memory == expected then (newcp, true) else (memory, false)
