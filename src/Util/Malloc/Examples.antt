-- ===== src/Util/Malloc/Examples.antt =====
-- The allocator on a buffer of two pages, and the theorems about it at that buffer.
use scal.Prelude.{
  inl, ℕ, ◌+◌, ◌-◌, ◌*◌, ◌%◌, ◌≤◌, ◌<◌, ◌≡◌, ◌≢◌, ◌↔◌, ◌⊎◌, none, some, List, [], ◌∷◌, refl, arith,
}
use scal.Util.Malloc.{
  MemBuffer, at, align_size, tlmalloc, tlmalloc_aligned, calloc_aligned, tl_free_last,
  human_size_to_pages, ◌>>=◌,
}
use scal.Util.Malloc.Bounds.{
  IsReady, defaults, Carved, tlmalloc-Carved, tlmalloc_aligned-Carved, tlmalloc_aligned-overrun,
}
use scal.Util.Malloc.FreeLast.{tl_free_last-tlmalloc}
use scal.Util.Malloc.Clear.{calloc_aligned-overrun_iff}
use scal.Util.Malloc.Pages.{human_size_to_pages_lem, human_size_to_pages-digit}

abbrev two_pages : MemBuffer
two_pages = record {
  memory = 40960;
  mem_size = 8192;
  pointer = 49000;
  start = 40960;
  wrap_around_cnt = 0;
  last_size = 0;
}

two_pages-IsReady : IsReady two_pages
two_pages-IsReady = ground arith

-- The number of the digits, read up to the first other character.
abbrev number_from : ℕ → List ℕ → ℕ
number_from n [] = n
number_from n (c ∷ s) = number_from (n * 10 + (c - b'0')) s

-- "40960" is ten pages, but is read as "4096".
last_digit_lost :
    human_size_to_pages (number_from 0) (b'4' ∷ b'0' ∷ b'9' ∷ b'6' ∷ b'0' ∷ []) ≡ some 1
unfolding human_size_to_pages
last_digit_lost = refl

tlmalloc-Carved_example :
    (p : ℕ) × (b' : MemBuffer) × (tlmalloc defaults none 500 two_pages ≡ some (at p, b'))
    × Carved b' p (align_size 500 16)
    × ((p ≡ 49000) ⊎ (p ≡ 40960))
unfolding align_size
tlmalloc-Carved_example = tlmalloc-Carved none 500 two_pages two_pages-IsReady (omega arith)

tlmalloc_aligned-Carved_example :
    (p : ℕ) × (b' : MemBuffer) × (tlmalloc_aligned defaults none 500 128 two_pages
      ≡ some (at p, b'))
    × Carved b' p (align_size 500 128)
    × (p % 128 ≡ 0)
unfolding align_size
tlmalloc_aligned-Carved_example =
    tlmalloc_aligned-Carved none 500 128 two_pages two_pages-IsReady (omega arith) (omega arith)
      refl (omega arith) (omega arith)

tlmalloc_aligned-overrun_example :
    (b' : MemBuffer) × (tlmalloc_aligned defaults none 9000 128 two_pages ≡ some (at 40960, b'))
    × (b'.memory + b'.mem_size < 40960 + align_size 9000 128)
unfolding align_size
tlmalloc_aligned-overrun_example =
    tlmalloc_aligned-overrun none 9000 128 two_pages two_pages-IsReady (omega arith) (omega arith)
      refl (omega arith) (omega arith)

tl_free_last-tlmalloc_example :
    (b' : MemBuffer) × ((tlmalloc defaults none 100 two_pages >>= λ r. tl_free_last r.1) ≡ some b')
    × (b' ≡ two_pages)
    × (tlmalloc defaults none 100 b' ≡ tlmalloc defaults none 100 two_pages)
    × (tl_free_last b' ≡ none)
unfolding align_size
tl_free_last-tlmalloc_example =
    tl_free_last-tlmalloc none 100 two_pages two_pages-IsReady (omega arith) (omega arith)
      (omega arith)

calloc_aligned-overrun_iff_example :
    ((calloc_aligned 1 8 128).allocated < (calloc_aligned 1 8 128).cleared) ↔ (1 * 8 % 128 ≢ 0)
calloc_aligned-overrun_iff_example = calloc_aligned-overrun_iff 1 8 128 (omega arith) (omega arith)

human_size_to_pages_lem_example :
    (pages : ℕ) × (human_size_to_pages (number_from 0) (b'1' ∷ b'0' ∷ b'k' ∷ []) ≡ some pages)
    × (10240 ≤ pages * 4096)
    × (pages * 4096 < 10240 + 4096)
human_size_to_pages_lem_example =
    human_size_to_pages_lem (number_from 0) b'1' b'k' 1024 (b'0' ∷ []) (inl (inl refl, refl))
      (λ e. omega arith) (omega arith)

human_size_to_pages-digit_example :
    (pages : ℕ) × (human_size_to_pages (number_from 0) (b'9' ∷ b'6' ∷ b'0' ∷ []) ≡ some pages)
    × (96 ≤ pages * 4096)
    × (pages * 4096 < 96 + 4096)
human_size_to_pages-digit_example =
    human_size_to_pages-digit (number_from 0) b'9' b'0' (b'6' ∷ []) (omega arith) (omega arith)
      (λ e. omega arith) (omega arith)
