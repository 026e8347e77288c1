-- ===== src/Util/AtomicValue/Layout.antt =====
-- What the packing of a value and its counter keeps, for each of the three layouts.
use scal.Prelude.{ℕ, ◌+◌, ◌*◌, ◌%◌, ◌^◌, ◌<◌, ◌≡◌, ◌↔◌, true, arith}
use scal.Util.AtomicValue.Base.{aba, set_aba, cas}
use scal.Util.AtomicValue.Offset
use scal.Util.AtomicValue.NoOffset
use scal.Util.AtomicValue.Wide

-- A pointer whose three low bits are clear and the counter modulo 8 are read back from a fresh
-- word of the offset layout; a write of the one leaves the other alone.
pub Offset_round_trip :
    (v a b w : ℕ)
    → v % 8 ≡ 0
    → (Offset.value (Offset.init v a) ≡ v)
      × (aba (Offset.init v a) ≡ a % 8)
      × (Offset.value (set_aba (Offset.init v a) b) ≡ v)
      × (aba (Offset.set_value (Offset.init v a) w) ≡ a % 8)
unfolding Offset.value Offset.init Offset.set_value aba set_aba
Offset_round_trip v a b w h = omega arith

-- The same of the shifted layout, for every value that fits 61 bits.
pub NoOffset_round_trip :
    (v a b w : ℕ)
    → v < 2 ^ 61
    → (NoOffset.value (NoOffset.init v a) ≡ v)
      × (aba (NoOffset.init v a) ≡ a % 8)
      × (NoOffset.value (set_aba (NoOffset.init v a) b) ≡ v)
      × (aba (NoOffset.set_value (NoOffset.init v a) w) ≡ a % 8)
unfolding NoOffset.value NoOffset.init NoOffset.set_value aba set_aba
NoOffset_round_trip v a b w h = omega arith

-- The same of the 128-bit layout, for a value and a counter of 64 bits each; the result fits.
pub Wide_round_trip :
    (v a b w : ℕ)
    → v < 2 ^ 64
    → a < 2 ^ 64
    → b < 2 ^ 64
    → (Wide.value (Wide.init v a) ≡ v)
      × (Wide.aba (Wide.init v a) ≡ a)
      × (Wide.value (Wide.weak_set_aba (Wide.init v a) b) ≡ v)
      × (Wide.aba (Wide.weak_set_value (Wide.init v a) w) ≡ a)
      × (Wide.init v a < 2 ^ 128)
unfolding Wide.value Wide.init Wide.weak_set_value Wide.weak_set_aba Wide.aba
Wide_round_trip v a b w h k l = omega arith

-- In each of the three layouts the compare-and-swap of a packed word is the comparison of value and
-- counter: it succeeds exactly when memory has the expected value, and the expected counter modulo 8
-- in the two 64-bit layouts, or all 64 bits of it in the 128-bit layout. The value fits 61 bits,
-- and in the offset layout it is a multiple of 8; the counter fits 64 bits.
pub cas-true_iff :
    (memory v a n : ℕ)
    → v < 2 ^ 61
    → a < 2 ^ 64
    → (((cas memory (NoOffset.init v a) n).1 ≡ true)
        ↔ ((NoOffset.value memory ≡ v) × (aba memory ≡ a % 8)))
      × (((cas memory (Offset.init (v * 8) a) n).1 ≡ true)
          ↔ ((Offset.value memory ≡ v * 8) × (aba memory ≡ a % 8)))
      × (((Wide.cas memory (Wide.init v a) n).1 ≡ true)
          ↔ ((Wide.value memory ≡ v) × (Wide.aba memory ≡ a)))
unfolding cas NoOffset.value NoOffset.init NoOffset.set_value Offset.value Offset.init
    Offset.set_value aba set_aba Wide.cas Wide.value Wide.init Wide.weak_set_value Wide.weak_set_aba
    Wide.aba
cas-true_iff memory v a n h k = (
  (λ e. ground arith, λ e. ground arith),
  (λ e. ground arith, λ e. ground arith),
  (λ e. ground arith, λ e. ground arith),
)

-- The counter tells two words with one value apart exactly if their counters differ modulo 8: after
-- 8 increments the word is the old one.
pub init-eq_iff : (v a k : ℕ) → v % 8 ≡ 0 → (Offset.init v (a + k) ≡ Offset.init v a) ↔ (k % 8 ≡ 0)
unfolding Offset.init Offset.set_value set_aba
init-eq_iff v a k h = (λ e. omega arith, λ e. omega arith)
