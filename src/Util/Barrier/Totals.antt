-- ===== src/Util/Barrier/Totals.antt =====
-- Sums of the first n values of a function.
use scal.Prelude.{
  ℕ, zero, suc, ◌+◌, ◌*◌, ◌<◌, ◌≤◌, ◌≡◌, arith, refl, update, update_self, update_ne, ℕ_discrete,
  sym, subst,
}
use native.Mathlib.Nat.{suc-mul}

abbrev pub total : ℕ → (ℕ → ℕ) → ℕ
total zero f = 0
total (suc n) f = f n + total n f

pub total-ext : (n : ℕ) (f g : ℕ → ℕ) → ((k : ℕ) → k < n → f k ≡ g k) → total n f ≡ total n g
total-ext zero f g h = refl
total-ext (suc n) f g h =
    omega (arith, h n (omega arith), total-ext n f g (λ k lt. h k (omega (arith, lt))))

-- One value grows by one.
pub total-update :
    (n i : ℕ) (f : ℕ → ℕ) → i < n → total n (update f i (suc (f i))) ≡ suc (total n f)
total-update zero i f lt = absurd (omega (arith, lt))
total-update (suc n) i f lt = elim (ℕ_discrete i n) [
  | yes e ↦ omega (
    arith,
    subst (λ m. update f i (suc (f i)) m ≡ suc (f m)) e (update_self f i (suc (f i))),
    total-ext n (update f i (suc (f i))) f
        (λ k less. update_ne f i (suc (f i)) k (omega (arith, e, less))),
  )
  | no ne ↦
      omega (arith, update_ne f i (suc (f i)) n ne, total-update n i f (omega (arith, lt, ne)))
]

pub total-ge : (n k : ℕ) (f : ℕ → ℕ) → ((u : ℕ) → u < n → k ≤ f u) → n * k ≤ total n f
total-ge zero k f h = omega arith
total-ge (suc n) k f h =
    omega (arith, suc-mul n k, h n (omega arith), total-ge n k f (λ u lt. h u (omega (arith, lt))))

total-le : (n k : ℕ) (f : ℕ → ℕ) → ((u : ℕ) → u < n → f u ≤ k) → total n f ≤ n * k
total-le zero k f h = omega arith
total-le (suc n) k f h =
    omega (arith, suc-mul n k, h n (omega arith), total-le n k f (λ u lt. h u (omega (arith, lt))))

-- Values of at most k that add up to n * k are all k.
pub total-full :
    (n k : ℕ) (f : ℕ → ℕ)
    → ((u : ℕ) → u < n → f u ≤ k)
    → total n f ≡ n * k
    → (u : ℕ) → u < n
    → f u ≡ k
total-full zero k f h e u lt = absurd (omega (arith, lt))
total-full (suc n) k f h e u lt =
    let smaller = total-le n k f (λ v less. h v (omega (arith, less))) in
    elim (ℕ_discrete u n) [
      | yes here ↦
          subst (λ m. f m ≡ k) (sym here)
            (omega (arith, e, suc-mul n k, smaller, h n (omega arith)))
      | no ne ↦
          total-full n k f (λ v less. h v (omega (arith, less)))
            (omega (arith, e, suc-mul n k, smaller, h n (omega arith))) u (omega (arith, lt, ne))
    ]
