-- ===== src/Prelude/Words.antt =====
-- A packed word as its two parts: what Util.AtomicValue shows that a word is to its readers. The
-- data structures compare and exchange such pairs.
use Prim.Native.Nat.{ℕ, ◌+◌, ◌%◌, ◌^◌}
use mathlib.Core.Path.{◌≡◌}
use mathlib.Core.Logic.{◌↔◌}
use mathlib.Core.Bool.{Bool, true, ◌&&◌}
use native.Mathlib.Omega.{arith}
use scal.Prelude.Tests.{◌==◌}

pub record Cell : Type 0 where
  pub value : ℕ
  pub aba : ℕ

-- The comparison of two raw words.
unfoldable pub same : Cell → Cell → Bool
same c d = c.value == d.value && c.aba == d.aba

-- `aba + 1` on a counter of 64 bits.
unfoldable pub next_aba : ℕ → ℕ
next_aba a = (a + 1) % 2 ^ 64

pub same_iff : (c d : Cell) → (same c d ≡ true) ↔ (c ≡ d)
unfolding same
same_iff c d = ground arith
