-- ===== src/DataStructures/BoundedSizeKFifo/Segment.antt =====
-- The search of a segment: `find_index` looks at every slot, wherever it starts.
use native.Mathlib.Nat.{mod-lt}
use scal.Prelude.{
  sym, if◌then◌else◌, ℕ, ◌+◌, ◌%◌, ◌^◌, ◌<◌, ◌≡◌, Bool, true, false, none, some, arith, Cell,
  for_from-some, for_from-none, round_at, round_at_lt, round_at_lem, refl, ◌∙◌, ap,
}
use scal.DataStructures.BoundedSizeKFifo.{KFifo, find_index, wanted, probe, slot}

-- The d-th slot of the segment that begins at `start`.
abbrev pub segment_slot : KFifo → ℕ → ℕ → ℕ
segment_slot q start d = (start + d) % 2 ^ 64 % q.queue_size

-- An optional result that a test guards.
guarded {ℓ} :
    {A : Type ℓ} (b : Bool) (x : A) {y : A}
    → (if b then some x else none) ≡ some y
    → (b ≡ true) × (x ≡ y)
guarded true x h = (refl, ground arith)
guarded false x h = cc

refused {ℓ} : {A : Type ℓ} (b : Bool) (x : A) → (if b then some x else none) ≡ none → b ≡ false
refused true x h = cc
refused false x h = refl

module _ (q : KFifo) (random start : ℕ) (empty : Bool) where
  -- What `find_index` finds is a slot of the segment, with the word that it holds, which is of the
  -- wanted kind.
  pub find_index-some :
      {index : ℕ} {old : Cell}
      → find_index q random start empty ≡ some (index, old)
      → (d : ℕ) × (d < q.k)
        × (index ≡ segment_slot q start d)
        × (old ≡ q.queue index)
        × (wanted empty old ≡ true)
  unfolding find_index
  find_index-some {index} {old} h =
      let (i, lo, hi, e) = for_from-some (probe q start empty random) 0 q.k h in
      let (w, p) = guarded (wanted empty (q.queue (slot q start random i))) _ e in
      ((random % q.k + i) % q.k, mod-lt _ (omega arith), ground arith, ground arith, ground arith)

  -- It finds nothing only if no slot of the segment is of the wanted kind, whatever the random
  -- number at which it starts.
  pub find_index-none :
      find_index q random start empty ≡ none
      → (d : ℕ) → d < q.k
      → wanted empty (q.queue (segment_slot q start d)) ≡ false
  unfolding find_index
  find_index-none h d lt =
      let i = round_at q.k (random % q.k) d in
      let e =
        for_from-none (probe q start empty random) 0 q.k h i (omega arith)
          (omega (arith, round_at_lt q.k (random % q.k) d (omega arith))) in
      let w = refused (wanted empty (q.queue (slot q start random i))) _ e in
      ap (λ x. wanted empty (q.queue ((start + x) % 2 ^ 64 % q.queue_size)))
        (sym (round_at_lem q.k (random % q.k) d lt))
      ∙ w
