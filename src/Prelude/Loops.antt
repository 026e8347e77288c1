-- ===== src/Prelude/Loops.antt =====
-- `for (i = i0; i < i0 + n; i++)` with an early return, and loops that go round an array.
use Prim.Native.Nat.{ℕ, zero, suc, ◌+◌, ◌-◌, ◌%◌, ◌≤◌, ◌<◌}
use mathlib.Core.Path.{◌≡◌, refl, ap, ◌∙◌, sym}
use mathlib.Core.Option.{Option, none, some}
use native.Mathlib.Omega.{arith}
use native.Mathlib.Decide.{dec_lt}
use scal.Prelude.Tests.{Option-cases}
use mathlib.Core.Logic.{inl, inr}
use native.Mathlib.Nat.{mod-add-mod, add-mod-mod, mod-eq_of_lt, mod-lt, add-mod_right}

module _ {ℓ} {A : Type ℓ} (body : ℕ → Option A) where
  -- The body returns from the enclosing function by `some`.
  unfoldable pub for_from : ℕ → ℕ → Option A
  for_from i zero = none
  for_from i (suc n) = elim (body i) [ some a ↦ some a | none ↦ for_from (suc i) n ]

  pub for_from-some :
      (i n : ℕ) {a : A}
      → for_from i n ≡ some a
      → (j : ℕ) × (i ≤ j) × (j < i + n) × (body j ≡ some a)
  unfolding for_from
  for_from-some i zero h = cc
  for_from-some i (suc n) {a} h = elim (Option-cases (body i)) [
    | inl e ↦
        let (j, lo, hi, q) = for_from-some (suc i) n (rw (e, for_from) at h) in
        (j, omega arith, omega arith, q)
    | inr (b, e) ↦ (i, omega arith, omega arith, e ∙ (rw (e, for_from) at h))
  ]

  pub for_from-none : (i n : ℕ) → for_from i n ≡ none → (j : ℕ) → i ≤ j → j < i + n → body j ≡ none
  unfolding for_from
  for_from-none i zero h j lo hi = absurd (omega arith)
  for_from-none i (suc n) h j lo hi = elim (Option-cases (body i)) [
    | inl e ↦ elim (dec_lt i j) [
      | yes l ↦ for_from-none (suc i) n (rw (e, for_from) at h) j l (omega arith)
      | no nl ↦ ap body (omega arith) ∙ e
    ]
    | inr (b, e) ↦ let none_some : some b ≡ none = rw (e, for_from) at h in cc
  ]

  -- All rounds pass exactly when the loop runs to its end.
  pub for_from_pass :
      (i n : ℕ) → ((j : ℕ) → i ≤ j → j < i + n → body j ≡ none) → for_from i n ≡ none
  unfolding for_from
  for_from_pass i zero h = refl
  for_from_pass i (suc n) h =
      rw (h i (omega arith) (omega arith), for_from)
        (for_from_pass (suc i) n (λ j lo hi. h j (omega arith) (omega arith)))

-- The round in which a loop that starts at r and goes round k places is at place d.
abbrev pub round_at : ℕ → ℕ → ℕ → ℕ
round_at k r d = (d + (k - r % k)) % k

pub round_at_lt : (k r d : ℕ) → 0 < k → round_at k r d < k
round_at_lt k r d h = mod-lt (d + (k - r % k)) h

pub round_at_lem : (k r d : ℕ) → d < k → (r + round_at k r d) % k ≡ d
round_at_lem k r d h =
    add-mod-mod r (d + (k - r % k)) k
    ∙ sym (mod-add-mod r k (d + (k - r % k)))
    ∙ ap (λ x. x % k) (omega (arith, mod-lt r {m = k} (omega arith)))
    ∙ add-mod_right d k
    ∙ mod-eq_of_lt h
