-- ===== src/Util/Malloc/Align.antt =====
-- What `align_size` returns.
use scal.Prelude.{ℕ, ◌+◌, ◌/◌, ◌%◌, ◌^◌, ◌≤◌, ◌<◌, ◌≡◌, arith}
use native.Mathlib.Nat.{mod-lt, div-add-mod', mul-mod_left}
use scal.Util.Malloc.{align_size}

-- For a positive alignment, and a size that leaves room for it in 64 bits, the result is the least
-- multiple of the alignment that is at least the size.
pub align_size_lem :
    (size alignment : ℕ)
    → 0 < alignment
    → size + alignment ≤ 2 ^ 64
    → (align_size size alignment % alignment ≡ 0)
      × (size ≤ align_size size alignment)
      × (align_size size alignment < size + alignment)
unfolding align_size
align_size_lem size alignment pos fits = ground (
  arith,
  div-add-mod' size alignment,
  mod-lt size {m = alignment} pos,
  mul-mod_left (size / alignment + 1) alignment,
)

pub align_size_aligned :
    (size alignment : ℕ) → size % alignment ≡ 0 → align_size size alignment ≡ size
unfolding align_size
align_size_aligned size alignment h = ground arith
