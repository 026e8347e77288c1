-- ===== src/DataStructures/KSegment.antt =====
-- The search of a segment of k slots for a free one or an item, as src/datastructures/kstack.h and
-- src/datastructures/unboundedsize_kfifo.h do it, and the rounds of their loops.
use scal.Prelude.{
  ℕ, ◌+◌, ◌%◌, ◌<◌, ◌≡◌, ◌≢◌, Bool, true, false, ◌&&◌, ◌||◌, not, ◌==◌, if◌then◌else◌, Option, none,
  some, refl, ◌∙◌, ap, sym, subst, arith, Cell, next_aba, for_from, for_from-some, for_from-none,
  round_at, round_at_lt, round_at_lem,
}
use native.Mathlib.Nat.{mod-lt}

-- What one round of a `while (true)` does: return, or go round again.
pub data Round (S A : Type 0) : Type 0 where
  returns : A → S → Round S A
  again : S → Round S A

-- `(empty && value == NULL) || (!empty && value != NULL)`
abbrev pub wanted : Bool → Cell → Bool
wanted empty c = (empty && c.value == 0) || (not empty && not (c.value == 0))

abbrev pub probe : (ℕ → Cell) → (k : ℕ) → Bool → (random i : ℕ) → Option (ℕ × Cell)
probe items k empty random i =
    let index = (random % k + i) % k in
    let old = items index in if wanted empty old then some (index, old) else none

-- The index and the word found, or `none` for kNoIndexFound.
unfoldable pub find_index : (ℕ → Cell) → (k random : ℕ) → Bool → Option (ℕ × Cell)
find_index items k random empty = for_from (probe items k empty random) 0 k

abbrev pub emptied : Cell → Cell
emptied c = record { value = 0; aba = next_aba c.aba }

abbrev pub filled : ℕ → Cell → Cell
filled item c = record { value = item; aba = next_aba c.aba }

guarded {ℓ} :
    {A : Type ℓ} (b : Bool) (x : A) {y : A}
    → (if b then some x else none) ≡ some y
    → (b ≡ true) × (x ≡ y)
guarded true x h = (refl, ground arith)
guarded false x h = cc

refused {ℓ} : {A : Type ℓ} (b : Bool) (x : A) → (if b then some x else none) ≡ none → b ≡ false
refused true x h = cc
refused false x h = refl

module _ (items : ℕ → Cell) (k random : ℕ) (empty : Bool) where
  -- What is found is a slot of the segment, with the word that it holds, of the wanted kind.
  pub find_index-some :
      {index : ℕ} {old : Cell}
      → find_index items k random empty ≡ some (index, old)
      → (index < k) × (old ≡ items index) × (wanted empty old ≡ true)
  unfolding find_index
  find_index-some {index} {old} h =
      let (i, lo, hi, e) = for_from-some (probe items k empty random) 0 k h in
      let (w, p) = guarded (wanted empty (items ((random % k + i) % k))) _ e in
      let at : (random % k + i) % k ≡ index = ap (λ r. r.0) p in
      (
        subst (λ j. j < k) at (mod-lt (random % k + i) (omega arith)),
        sym (ap (λ r. r.1) p) ∙ ap items at,
        subst (λ c. wanted empty c ≡ true) (ap (λ r. r.1) p) w,
      )

  -- Nothing is found only if no slot of the segment is of the wanted kind.
  pub find_index-none :
      find_index items k random empty ≡ none → (d : ℕ) → d < k → wanted empty (items d) ≡ false
  unfolding find_index
  find_index-none h d lt =
      let i = round_at k (random % k) d in
      let e =
        for_from-none (probe items k empty random) 0 k h i (omega arith)
          (omega (arith, round_at_lt k (random % k) d (omega arith))) in
      let w = refused (wanted empty (items ((random % k + i) % k))) _ e in
      ap (λ x. wanted empty (items x)) (sym (round_at_lem k (random % k) d lt)) ∙ w

pub wanted_item : (c : Cell) → wanted false c ≡ true → c.value ≢ 0
wanted_item c h = ground arith

pub unwanted_item : (c : Cell) → wanted false c ≡ false → c.value ≡ 0
unwanted_item c h = ground arith

pub wanted_free : (c : Cell) → wanted true c ≡ true → c.value ≡ 0
wanted_free c h = ground arith

pub unwanted_free : (c : Cell) → wanted true c ≡ false → c.value ≢ 0
unwanted_free c h = ground arith
