-- ===== src/Util/Malloc.antt =====
-- src/util/malloc.cc: the thread-local bump allocator, on one thread's buffer that `tlalloc_init`
-- has set up. Addresses and sizes are uint64_t. What malloc and posix_memalign hand out is outside
-- the buffer and stays abstract, but for the address of a page that replaces a full buffer; `none`
-- is an abort of the program.
pub mod Align
pub mod Bounds
pub mod FreeLast
pub mod Clear
pub mod Pages
mod Examples
use scal.Prelude.{
  ℕ, ◌+◌, ◌-◌, ◌*◌, ◌/◌, ◌%◌, ◌^◌, Bool, true, false, ◌||◌, Option, none, some, List, [], ◌∷◌, ltb,
  ◌==◌, if◌then◌else◌,
}

pub record MemBuffer : Type 0 where
  pub memory : ℕ
  pub mem_size : ℕ
  pub pointer : ℕ
  pub start : ℕ
  pub wrap_around_cnt : ℕ
  pub last_size : ℕ

-- The two gflags of the file.
pub record Flags : Type 0 where
  pub reuse_memory : Bool
  pub disable_tl_allocator : Bool

-- Where an object lies: in the thread's buffer, or in memory of the C library.
pub data Block : Type 0 where
  at : (address : ℕ) → Block
  from_malloc : (size : ℕ) → Block
  from_memalign : (size alignment : ℕ) → Block

abbrev pub page_size : ℕ
page_size = 4096

abbrev pub u64 : ℕ → ℕ
u64 n = n % 2 ^ 64

unfoldable pub align_size : ℕ → ℕ → ℕ
align_size size alignment =
    if alignment == 0 || size % alignment == 0
    then size
    else u64 ((size / alignment + 1) * alignment)

-- `tlalloc_init`, with what posix_memalign returns; touching the pages leaves them zero.
unfoldable pub tlalloc_init : Flags → ℕ → ℕ → MemBuffer → MemBuffer
tlalloc_init flags memory num_tlabs b = if flags.disable_tl_allocator then b else record b {
  memory = memory;
  mem_size = u64 (page_size * num_tlabs);
  pointer = memory;
  start = memory;
  wrap_around_cnt = 0;
}

-- A full buffer begins again at its start, or goes on in a fresh page.
abbrev pub refill : Flags → Option ℕ → ℕ → MemBuffer → Option MemBuffer
refill flags fresh wraps b =
    if flags.reuse_memory
    then some (record b {
      memory = b.start;
      pointer = b.start;
      wrap_around_cnt = b.wrap_around_cnt + wraps;
    })
    else elim fresh [
      | none ↦ none
      | some page ↦ some (record b { memory = page; mem_size = page_size; pointer = page })
    ]

-- No room for `size` bytes at `address`.
abbrev pub is_full : MemBuffer → ℕ → ℕ → Bool
is_full b address size = b.memory == 0 || ltb (u64 (b.memory + b.mem_size)) (u64 (address + size))

abbrev pub carve : MemBuffer → ℕ → ℕ → Block × MemBuffer
carve b address size = (at address, record b { pointer = u64 (address + size); last_size = size })

infixl 5 ◌>>=◌
abbrev pub ◌>>=◌ : {A B : Type 0} → Option A → (A → Option B) → Option B
none >>= f = none
some a >>= f = f a

unfoldable pub tlmalloc : Flags → Option ℕ → ℕ → MemBuffer → Option (Block × MemBuffer)
tlmalloc flags fresh requested b =
    let size = align_size requested 16 in
    if flags.disable_tl_allocator
    then some (from_malloc requested, b)
    else if ltb page_size size
    then some (from_malloc size, b)
    else do
      b' ← if is_full b b.pointer size then refill flags fresh 0 b else some b
      some (carve b' b'.pointer size)

unfoldable pub tlmalloc_aligned : Flags → Option ℕ → ℕ → ℕ → MemBuffer → Option (Block × MemBuffer)
tlmalloc_aligned flags fresh requested wanted b =
    let alignment = if ltb page_size wanted then page_size else wanted in
    let size = align_size requested alignment in
    if flags.disable_tl_allocator
    then some (from_memalign requested wanted, b)
    else if wanted == 0
    then tlmalloc flags fresh requested b
    else do
      b' ←
          if is_full b (align_size b.pointer alignment) size then refill flags fresh 1 b else some b
      some (carve b' (align_size b'.pointer alignment) size)

-- The object, the new buffer, and how many bytes `memset` then clears at the object.
abbrev pub Cleared : Type 0
Cleared = (Block × MemBuffer) × ℕ

unfoldable pub tlcalloc : Flags → Option ℕ → ℕ → ℕ → MemBuffer → Option Cleared
tlcalloc flags fresh num size b = do
  r ← tlmalloc flags fresh (u64 (size * num)) b
  some (r, align_size (u64 (size * num)) 16)

unfoldable pub tlcalloc_aligned : Flags → Option ℕ → ℕ → ℕ → ℕ → MemBuffer → Option Cleared
tlcalloc_aligned flags fresh num size alignment b = do
  r ← tlmalloc_aligned flags fresh (u64 (size * num)) alignment b
  some (r, align_size (u64 (size * num)) alignment)

-- What `calloc_aligned` asks posix_memalign for, and how many bytes it clears.
pub record Request : Type 0 where
  pub allocated : ℕ
  pub cleared : ℕ

unfoldable pub calloc_aligned : ℕ → ℕ → ℕ → Request
calloc_aligned num size alignment = record {
  allocated = u64 (num * size);
  cleared = align_size (u64 (num * size)) alignment;
}

unfoldable pub tl_free_last : MemBuffer → Option MemBuffer
tl_free_last b =
    if b.last_size == 0
    then none
    else some (record b { pointer = u64 (b.pointer + 2 ^ 64 - b.last_size); last_size = 0 })

-- All characters but the last, and the last.
abbrev pub split_last : ℕ → List ℕ → List ℕ × ℕ
split_last c [] = ([], c)
split_last c (d ∷ s) = let (front, last) = split_last d s in (c ∷ front, last)

abbrev pub multiplier_of : ℕ → ℕ
multiplier_of c =
    if c == b'k' || c == b'K'
    then 1024
    else if c == b'm' || c == b'M'
    then 1024 * 1024
    else if c == b'g' || c == b'G'
    then 1024 * 1024 * 1024
    else 1

-- `strtol` is that of the C library, as uint64_t. An empty text is read out of bounds, and 0 aborts.
unfoldable pub human_size_to_pages : (strtol : List ℕ → ℕ) → List ℕ → Option ℕ
human_size_to_pages strtol [] = none
human_size_to_pages strtol (c ∷ s) =
    let (newstr, last) = split_last c s in
    let val = strtol newstr in
    let bytes = u64 (val * multiplier_of last) in
    if val == 0
    then none
    else if bytes % 4096 == 0
    then some (bytes / 4096)
    else some (bytes / 4096 + 1)
