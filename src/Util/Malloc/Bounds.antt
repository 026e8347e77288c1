-- ===== src/Util/Malloc/Bounds.antt =====
-- Objects lie inside the thread's buffer, and one that is too large for it does not.
use scal.Prelude.{
  dec_lt, inl, inr, refl, ℕ, ◌+◌, ◌%◌, ◌^◌, ◌≤◌, ◌<◌, ◌≡◌, Option, some, true, false, arith, ◌⊎◌,
}
use scal.Util.Malloc.{MemBuffer, Flags, at, align_size, tlmalloc, tlmalloc_aligned, page_size}
use scal.Util.Malloc.Align.{align_size_lem, align_size_aligned}

-- A buffer that is used again when it is full, as `tlalloc_init` sets it up and as it stays.
pub record IsReady (b : MemBuffer) : Type 0 where
  pub present : 0 < b.memory
  pub again : b.memory ≡ b.start
  pub low : b.memory ≤ b.pointer
  pub high : b.pointer ≤ b.memory + b.mem_size
  pub roomy : page_size ≤ b.mem_size
  pub small : b.memory + b.mem_size + 2 ^ 14 ≤ 2 ^ 64

-- The flags' defaults: memory is reused, and the thread-local allocator is on.
abbrev pub defaults : Flags
defaults = record { reuse_memory = true; disable_tl_allocator = false }

-- An object of n bytes that begins at p lies in the buffer, and the pointer stands behind it.
pub record Carved (b : MemBuffer) (p n : ℕ) : Type 0 where
  pub ready : IsReady b
  pub inside : (b.memory ≤ p) × (p + n ≤ b.memory + b.mem_size)
  pub behind : b.pointer ≡ p + n

-- An object of up to a page is carved from the buffer: `tlmalloc` always returns one, it lies in
-- the buffer, directly at the pointer or at the start, and the next one will lie behind it.
pub tlmalloc-Carved :
    (fresh : Option ℕ) (size : ℕ) (b : MemBuffer)
    → IsReady b
    → align_size size 16 ≤ page_size
    → (p : ℕ) × (b' : MemBuffer) × (tlmalloc defaults fresh size b ≡ some (at p, b'))
      × Carved b' p (align_size size 16)
      × ((p ≡ b.pointer) ⊎ (p ≡ b.start))
unfolding tlmalloc
tlmalloc-Carved fresh size b v h =
    elim (dec_lt (b.memory + b.mem_size) (b.pointer + align_size size 16)) [
      | yes full ↦ (
        b.start,
        record b {
          memory = b.start;
          pointer = b.start + align_size size 16;
          last_size = align_size size 16;
          wrap_around_cnt = b.wrap_around_cnt;
        },
        ground arith,
        ground arith,
        inr refl,
      )
      | no room ↦ (
        b.pointer,
        record b { pointer = b.pointer + align_size size 16; last_size = align_size size 16 },
        ground arith,
        ground arith,
        inl refl,
      )
    ]

-- An object whose padded size fits the buffer, with addresses that do not overflow, is carved at a multiple of its alignment, for an
-- alignment up to a page that the buffer's start has too.
pub tlmalloc_aligned-Carved :
    (fresh : Option ℕ) (size alignment : ℕ) (b : MemBuffer)
    → IsReady b
    → 0 < alignment
    → alignment ≤ page_size
    → b.start % alignment ≡ 0
    → align_size size alignment ≤ b.mem_size
    → b.memory + b.mem_size + align_size size alignment + page_size ≤ 2 ^ 64
    → (p : ℕ) × (b' : MemBuffer) × (tlmalloc_aligned defaults fresh size alignment b
        ≡ some (at p, b'))
      × Carved b' p (align_size size alignment)
      × (p % alignment ≡ 0)
unfolding tlmalloc_aligned
tlmalloc_aligned-Carved fresh size alignment b v pos le start fits page =
    let up = align_size_lem b.pointer alignment pos (omega arith) in
    let p = align_size b.pointer alignment in
    let n = align_size size alignment in
    elim (dec_lt (b.memory + b.mem_size) (p + n)) [
      | yes full ↦ (
        b.start,
        record b {
          memory = b.start;
          pointer = b.start + n;
          last_size = n;
          wrap_around_cnt = b.wrap_around_cnt + 1;
        },
        ground (arith, align-start),
        ground arith,
        start,
      )
      | no room ↦ (p, record b { pointer = p + n; last_size = n }, ground arith, ground arith, up.0)
    ]
  where
    align-start : align_size b.start alignment ≡ b.start
    align-start = align_size_aligned b.start alignment start

-- The reuse of a buffer does not look at its size again: an object that is larger than the whole
-- buffer is carved at its start, and ends behind the buffer (for addresses that do not overflow).
pub tlmalloc_aligned-overrun :
    (fresh : Option ℕ) (size alignment : ℕ) (b : MemBuffer)
    → IsReady b
    → 0 < alignment
    → alignment ≤ page_size
    → b.start % alignment ≡ 0
    → b.mem_size < align_size size alignment
    → b.memory + b.mem_size + align_size size alignment + page_size ≤ 2 ^ 64
    → (b' : MemBuffer) × (tlmalloc_aligned defaults fresh size alignment b ≡ some (at b.start, b'))
      × (b'.memory + b'.mem_size < b.start + align_size size alignment)
unfolding tlmalloc_aligned
tlmalloc_aligned-overrun fresh size alignment b v pos le start over bound = (
  record b {
    memory = b.start;
    pointer = b.start + align_size size alignment;
    last_size = align_size size alignment;
    wrap_around_cnt = b.wrap_around_cnt + 1;
  },
  ground (
    arith,
    align_size_lem b.pointer alignment pos (omega arith),
    align_size_aligned b.start alignment start,
  ),
  ground arith,
)
