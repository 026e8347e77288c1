-- ===== src/Util/Malloc/Pages.antt =====
-- What `human_size_to_pages` reads.
use scal.Prelude.{
  if◌then◌else◌, ◌==◌, ℕ, ◌+◌, ◌*◌, ◌/◌, ◌%◌, ◌^◌, ◌≤◌, ◌<◌, ◌≡◌, ◌≢◌, ◌⊎◌, inr, List, [], ◌∷◌,
  ◌++◌, some, none, arith, refl,
}
use scal.Util.Malloc.{human_size_to_pages, split_last, multiplier_of, u64}

split_last-snoc : (c d : ℕ) (s : List ℕ) → split_last c (s ++ d ∷ []) ≡ (c ∷ s, d)
split_last-snoc c d [] = refl
split_last-snoc c d (e ∷ s) = rw (split_last-snoc e d s)

abbrev pages_of : ℕ → ℕ
pages_of bytes = if bytes % 4096 == 0 then bytes / 4096 else bytes / 4096 + 1

pages_of_bounds :
    (bytes : ℕ) → (bytes ≤ pages_of bytes * 4096) × (pages_of bytes * 4096 < bytes + 4096)
pages_of_bounds bytes = ground arith

counted :
    (val multiplier : ℕ)
    → val ≢ 0
    → val * multiplier < 2 ^ 64
    → (if val == 0
        then none
        else if u64 (val * multiplier) % 4096 == 0
        then some (u64 (val * multiplier) / 4096)
        else some (u64 (val * multiplier) / 4096 + 1))
      ≡ some (pages_of (val * multiplier))
counted val multiplier ne fits = ground arith

-- The factor that the last character names: k, m and g, large or small, stand for 2 ^ 10, 2 ^ 20 and
-- 2 ^ 30, and every other character for 1.
abbrev pub Names : (last factor : ℕ) → Type 0
Names last factor =
    (((last ≡ b'k') ⊎ (last ≡ b'K')) × (factor ≡ 2 ^ 10))
    ⊎ (((last ≡ b'm') ⊎ (last ≡ b'M')) × (factor ≡ 2 ^ 20))
    ⊎ (((last ≡ b'g') ⊎ (last ≡ b'G')) × (factor ≡ 2 ^ 30))
    ⊎ ((last ≢ b'k')
        × (last ≢ b'K')
        × (last ≢ b'm')
        × (last ≢ b'M')
        × (last ≢ b'g')
        × (last ≢ b'G')
        × (factor ≡ 1))

multiplier_of-Names : (last factor : ℕ) → Names last factor → multiplier_of last ≡ factor
multiplier_of-Names last factor h = ground arith

-- The pages hold the bytes that the text names, and no page is wanted in vain: the bytes are the
-- number before the last character times the factor that this character names, if the number is not
-- 0 and the product fits 64 bits.
pub human_size_to_pages_lem :
    (strtol : List ℕ → ℕ) (c last factor : ℕ) (s : List ℕ)
    → Names last factor
    → strtol (c ∷ s) ≢ 0
    → strtol (c ∷ s) * factor < 2 ^ 64
    → (pages : ℕ) × (human_size_to_pages strtol (c ∷ (s ++ last ∷ [])) ≡ some pages)
      × (strtol (c ∷ s) * factor ≤ pages * 4096)
      × (pages * 4096 < strtol (c ∷ s) * factor + 4096)
unfolding human_size_to_pages
human_size_to_pages_lem strtol c last factor s named ne fits =
    let val = strtol (c ∷ s) in
    let bounds = pages_of_bounds (val * factor) in
    (
      pages_of (val * factor),
      rw (split_last-snoc c last s, multiplier_of-Names last factor named)
          (counted val factor ne fits),
      bounds.0,
      bounds.1,
    )

-- A size with no suffix loses its last digit: whatever that digit is, the pages are only those that
-- hold as many bytes as the number before it says, if this number is not 0 and fits 64 bits.
pub human_size_to_pages-digit :
    (strtol : List ℕ → ℕ) (c d : ℕ) (s : List ℕ)
    → b'0' ≤ d
    → d ≤ b'9'
    → strtol (c ∷ s) ≢ 0
    → strtol (c ∷ s) < 2 ^ 64
    → (pages : ℕ) × (human_size_to_pages strtol (c ∷ (s ++ d ∷ [])) ≡ some pages)
      × (strtol (c ∷ s) ≤ pages * 4096)
      × (pages * 4096 < strtol (c ∷ s) + 4096)
human_size_to_pages-digit strtol c d s lo hi ne fits =
    let (pages, e, enough, no_more) =
      human_size_to_pages_lem strtol c d 1 s no_suffix ne (omega (arith, fits)) in
    (pages, e, omega (arith, enough), omega (arith, no_more))
  where
    no_suffix : Names d 1
    no_suffix = inr (
        inr (
          inr (omega arith, omega arith, omega arith, omega arith, omega arith, omega arith, refl)))
