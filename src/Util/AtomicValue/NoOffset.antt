-- ===== src/Util/AtomicValue/NoOffset.antt =====
-- src/util/atomic_value64_no_offset.h: the value is shifted above the three bits of the counter.
use scal.Prelude.{ℕ, ◌+◌, ◌*◌, ◌/◌, ◌%◌, ◌^◌}
use scal.Util.AtomicValue.Base.{aba_bits, set_aba}

unfoldable pub value : ℕ → ℕ
value raw = raw / 2 ^ aba_bits

-- The shift loses the bits that leave the 64-bit word.
unfoldable pub set_value : ℕ → ℕ → ℕ
set_value memory v = memory % 2 ^ aba_bits + v * 2 ^ aba_bits % 2 ^ 64

unfoldable pub init : ℕ → ℕ → ℕ
unfolding set_value set_aba
init v a = set_aba (set_value 0 v) a
