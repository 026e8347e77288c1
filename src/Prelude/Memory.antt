-- ===== src/Prelude/Memory.antt =====
-- Memories and thread tables as functions on native numbers, with a write at one place.
use Prim.Native.Nat.{ℕ}
use mathlib.Core.Path.{◌≡◌, ap, subst, ◌∙◌}
use mathlib.Core.Logic.{◌≢◌}
use native.Mathlib.Omega.{arith}
use native.Mathlib.Decide.{ℕ_discrete}
use scal.Prelude.Tests.{◌==◌, if◌then◌else◌}

-- `f` with the value at `p` replaced by `v`.
abbrev pub update {ℓ} : {A : Type ℓ} → (ℕ → A) → ℕ → A → ℕ → A
update f p v q = if p == q then v else f q

pub update_self {ℓ} : {A : Type ℓ} (f : ℕ → A) (p : ℕ) (v : A) → update f p v p ≡ v
update_self f p v = ground arith

pub update_ne {ℓ} : {A : Type ℓ} (f : ℕ → A) (p : ℕ) (v : A) (q : ℕ) → p ≢ q → update f p v q ≡ f q
update_ne f p v q h = ground arith

-- A write keeps of each value what the new value has in common with the old one.
pub update_keeps {ℓ κ} :
    {A : Type ℓ} {B : Type κ} (f : A → B) (m : ℕ → A) (a b : ℕ) (v : A)
    → f v ≡ f (m a)
    → f (update m a v b) ≡ f (m b)
update_keeps f m a b v e = elim (ℕ_discrete a b) [
  | yes here ↦ subst (λ b. f (update m a v b) ≡ f (m b)) here (ap f (update_self m a v) ∙ e)
  | no ne ↦ ap f (update_ne m a v b ne)
]
