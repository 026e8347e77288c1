-- ===== src/Util/AtomicValue/Offset.antt =====
-- src/util/atomic_value64_offset.h: the counter stands in the three low bits of a pointer.
use scal.Prelude.{ℕ, ◌+◌, ◌%◌, ◌^◌}
use scal.Util.AtomicValue.Base.{aba_bits, clear_aba, set_aba}

unfoldable pub value : ℕ → ℕ
value raw = clear_aba raw

unfoldable pub set_value : ℕ → ℕ → ℕ
set_value memory v = memory % 2 ^ aba_bits + clear_aba v

unfoldable pub init : ℕ → ℕ → ℕ
unfolding set_value set_aba
init v a = set_aba (set_value 0 v) a
