-- ===== src/Util/Malloc/Clear.antt =====
-- What `memset` clears beside what was asked for.
use scal.Prelude.{ap, ℕ, ◌+◌, ◌*◌, ◌%◌, ◌^◌, ◌≤◌, ◌<◌, ◌≡◌, ◌≢◌, ◌↔◌, arith}
use scal.Util.Malloc.{calloc_aligned, align_size}
use scal.Util.Malloc.Align.{align_size_lem, align_size_aligned}

-- For a positive alignment, and sizes that do not overflow, `calloc_aligned` clears more bytes than
-- it has allocated exactly when the alignment does not divide the size.
pub calloc_aligned-overrun_iff :
    (num size alignment : ℕ)
    → 0 < alignment
    → num * size + alignment ≤ 2 ^ 64
    → ((calloc_aligned num size alignment).allocated < (calloc_aligned num size alignment).cleared)
      ↔ (num * size % alignment ≢ 0)
unfolding calloc_aligned
calloc_aligned-overrun_iff num size alignment pos fits =
    let n = num * size in
    let a = align_size_lem n alignment pos fits in
    (
      λ h e. omega (arith, align_size_aligned n alignment e, same_size),
      λ h. omega (arith, same_size, not_aligned h a.0 a.1),
    )
  where
    same_size : align_size (num * size % 2 ^ 64) alignment ≡ align_size (num * size) alignment
    same_size = ap (λ n. align_size n alignment) (omega arith)

    -- A multiple of the alignment is not a size that is none.
    not_aligned :
        num * size % alignment ≢ 0
        → align_size (num * size) alignment % alignment ≡ 0
        → num * size ≤ align_size (num * size) alignment
        → num * size < align_size (num * size) alignment
    not_aligned h z le = ground arith
