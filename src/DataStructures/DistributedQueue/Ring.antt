-- ===== src/DataStructures/DistributedQueue/Ring.antt =====
-- A pass over n backends from any of them meets each of them.
use scal.Prelude.{ℕ, suc, ◌+◌, ◌-◌, ◌%◌, ◌≤◌, ◌<◌, ◌≡◌, arith, dec_lt, ◌∙◌, ap, ◌⊎◌, inl, inr}
use native.Mathlib.Nat.{mod-eq_of_lt, mod-lt, mod_self, mod-eq-sub-mod}

-- The index that is i places behind the start, without %.
pub at-place : (start i n : ℕ) → start < n → i < n → start + i < n → (start + i) % n ≡ start + i
at-place start i n s h lt = mod-eq_of_lt lt

pub at-wrapped :
    (start i n : ℕ) → start < n → i < n → n ≤ start + i → (start + i) % n ≡ start + i - n
at-wrapped start i n s h le = mod-eq-sub-mod le ∙ mod-eq_of_lt (omega arith)

-- Each index k < n is at some place.
pub place-of : (start n k : ℕ) → start < n → k < n → (j : ℕ) × (j < n) × ((start + j) % n ≡ k)
place-of start n k s h = elim (dec_lt k start) [
  | yes lt ↦ (
    k + n - start,
    omega arith,
    omega (arith, at-wrapped start (k + n - start) n s (omega arith) (omega arith)),
  )
  | no ge ↦ (
    k - start,
    omega arith,
    omega (arith, at-place start (k - start) n s (omega arith) (omega arith)),
  )
]

pub index-lt : (start i n : ℕ) → start < n → (start + i) % n < n
index-lt start i n s = mod-lt (start + i) (omega arith)

next-index : (p n : ℕ) → p < n → ((p + 1) % n ≡ p + 1) ⊎ ((p + 1 ≡ n) × ((p + 1) % n ≡ 0))
next-index p n lt = elim (dec_lt (p + 1) n) [
  | yes h ↦ inl (mod-eq_of_lt h)
  | no h ↦ inr (omega arith, wraps (omega arith))
]
  where
    wraps : p + 1 ≡ n → (p + 1) % n ≡ 0
    wraps e = ap (λ m. m % n) e ∙ mod_self n

-- The place whose successor is the start is the last one.
pub last-place : (start i n : ℕ) → start < n → i < n → ((start + i) % n + 1) % n ≡ start → suc i ≡ n
last-place start i n s h e =
    let next = next-index ((start + i) % n) n (index-lt start i n s) in
    elim (dec_lt (start + i) n) [
      | yes lt ↦ omega (arith, at-place start i n s h lt, next)
      | no ge ↦ omega (arith, at-wrapped start i n s h (omega arith), next)
    ]
