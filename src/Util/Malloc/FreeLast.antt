-- ===== src/Util/Malloc/FreeLast.antt =====
-- `tl_free_last` undoes the last `tlmalloc`.
use scal.Prelude.{ℕ, ◌+◌, ◌≤◌, ◌<◌, ◌≡◌, Option, some, none, arith}
use scal.Util.Malloc.{MemBuffer, tlmalloc, tl_free_last, align_size, page_size, ◌>>=◌}
use scal.Util.Malloc.Bounds.{IsReady, defaults}

-- Where there was room, and for an aligned size that is positive and at most a page, freeing the last
-- object puts the pointer back where it was: the same call then returns the same object again, and a
-- second free in a row aborts.
pub tl_free_last-tlmalloc :
    (fresh : Option ℕ) (size : ℕ) (b : MemBuffer)
    → IsReady b
    → 0 < align_size size 16
    → align_size size 16 ≤ page_size
    → b.pointer + align_size size 16 ≤ b.memory + b.mem_size
    → (b' : MemBuffer) × ((tlmalloc defaults fresh size b >>= λ r. tl_free_last r.1) ≡ some b')
      × (b' ≡ record b { last_size = 0 })
      × (tlmalloc defaults fresh size b' ≡ tlmalloc defaults fresh size b)
      × (tl_free_last b' ≡ none)
unfolding tlmalloc tl_free_last
tl_free_last-tlmalloc fresh size b v pos page room =
    (record b { last_size = 0 }, ground arith, ground arith, ground arith, ground arith)
