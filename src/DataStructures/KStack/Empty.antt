-- ===== src/DataStructures/KStack/Empty.antt =====
-- What the test for an empty segment finds.
use scal.Prelude.{
  ℕ, zero, suc, ◌+◌, ◌%◌, ◌≤◌, ◌<◌, ◌≡◌, ◌↔◌, Bool, true, false, ◌==◌, refl, sym, ◌∙◌, subst, arith,
  update, update_self, update_ne, ℕ_discrete, Bool-cases, inl, inr, false-true, Cell, same_iff,
  round_at, round_at_lt, round_at_lem,
}
use native.Mathlib.Nat.{mod-lt}
use scal.DataStructures.KStack.{KStack, record_items, compare_items, is_empty}

module _ (items : ℕ → Cell) (k random : ℕ) where
  abbrev at : ℕ → ℕ
  at i = (random % k + i) % k

  -- The words recorded so far stay, and those at the visited slots are recorded.
  record_items-true :
      (i left : ℕ) (records : ℕ → Cell)
      → (record_items items k random i left records).0 ≡ true
      → ((j : ℕ)
          → i ≤ j
          → j < i + left
          → ((items (at j)).value ≡ 0)
            × ((record_items items k random i left records).1 (at j) ≡ items (at j)))
        × ((x : ℕ)
            → records x ≡ items x
            → (record_items items k random i left records).1 x ≡ items x)
  unfolding record_items
  record_items-true i zero records e = (λ j lo hi. absurd (omega arith), λ x h. h)
  record_items-true i (suc left) records e =
      let next = update records (at i) (items (at i)) in
      elim (Bool-cases ((items (at i)).value == 0)) [
        | inr full ↦ absurd (false-true (stops full e))
        | inl bare ↦
            let rest = record_items-true (suc i) left next (passes bare e) in
            rw (bare, record_items)
              (
                λ j lo hi. elim (ℕ_discrete i j) [
                  | yes here ↦
                      subst
                        (λ j.
                          ((items (at j)).value ≡ 0)
                          × ((record_items items k random (suc i) left next).1 (at j)
                              ≡ items (at j)))
                        here
                        (
                          ground (arith, bare),
                          rest.1 (at i) (update_self records (at i) (items (at i))),
                        )
                  | no later ↦ rest.0 j (omega arith) (omega arith)
                ],
                λ x h. rest.1 x (kept x h),
              )
      ]
    where
      stops :
          ((items (at i)).value == 0) ≡ false
          → (record_items items k random i (suc left) records).0 ≡ true
          → false ≡ true
      stops full h = rw (full, record_items) at h

      passes :
          ((items (at i)).value == 0) ≡ true
          → (record_items items k random i (suc left) records).0 ≡ true
          → (record_items items k random (suc i) left (update records (at i) (items (at i)))).0
            ≡ true
      passes bare h = rw (bare, record_items) at h

      kept : (x : ℕ) → records x ≡ items x → update records (at i) (items (at i)) x ≡ items x
      kept x h = elim (ℕ_discrete (at i) x) [
        | yes here ↦
            subst (λ x. update records (at i) (items (at i)) x ≡ items x) here
              (update_self records (at i) (items (at i)))
        | no ne ↦ update_ne records (at i) (items (at i)) x ne ∙ h
      ]

  record_items-ends :
      (i left : ℕ) (records : ℕ → Cell)
      → ((j : ℕ) → (items (at j)).value ≡ 0)
      → (record_items items k random i left records).0 ≡ true
  unfolding record_items
  record_items-ends i zero records h = refl
  record_items-ends i (suc left) records h =
      rw (is_zero (h i), record_items)
        (record_items-ends (suc i) left (update records (at i) (items (at i))) h)
    where
      is_zero : (items (at i)).value ≡ 0 → ((items (at i)).value == 0) ≡ true
      is_zero e = ground arith

  compare_items-true :
      (i left : ℕ) (records : ℕ → Cell)
      → ((j : ℕ) → i ≤ j → j < i + left → records (at j) ≡ items (at j))
      → compare_items items k random i left records ≡ true
  unfolding compare_items
  compare_items-true i zero records h = refl
  compare_items-true i (suc left) records h =
      rw
        (
          (same_iff (items (at i)) (records (at i))).1 (sym (h i (omega arith) (omega arith))),
          compare_items,
        )
        (compare_items-true (suc i) left records (λ j lo hi. h j (omega arith) (omega arith)))

-- Every slot of a segment is free.
abbrev pub IsBare : (ℕ → Cell) → ℕ → Type 0
IsBare items k = (d : ℕ) → d < k → (items d).value ≡ 0

module _ (segment random : ℕ) (q : KStack) (pos : 0 < q.k) where
  abbrev slots : ℕ → Cell
  slots = (q.segments segment).items

  abbrev recorded : Bool × (ℕ → Cell)
  recorded = record_items slots q.k random 0 q.k q.item_records

  is_empty-stops : recorded.0 ≡ false → (is_empty segment random q).0 ≡ false
  unfolding is_empty
  is_empty-stops e = rw (e, is_empty) refl

  is_empty-compares :
      recorded.0 ≡ true
      → (is_empty segment random q).0 ≡ compare_items slots q.k random 0 q.k recorded.1
  unfolding is_empty
  is_empty-compares e = rw (e, is_empty) refl

  -- Without interference, wherever the search begins, a segment tests as empty exactly if each of
  -- its slots is free.
  pub is_empty_iff : ((is_empty segment random q).0 ≡ true) ↔ IsBare slots q.k
  is_empty_iff = (to, from)
    where
      to : (is_empty segment random q).0 ≡ true → IsBare slots q.k
      to h d lt = elim (Bool-cases recorded.0) [
        | inr stops ↦ absurd (false-true (sym (is_empty-stops stops) ∙ h))
        | inl ends ↦
            let j = round_at q.k (random % q.k) d in
            subst (λ x. (slots x).value ≡ 0) (round_at_lem q.k (random % q.k) d lt)
              ((record_items-true slots q.k random 0 q.k q.item_records ends).0 j (omega arith)
                (omega (arith, round_at_lt q.k (random % q.k) d pos))).0
      ]

      from : IsBare slots q.k → (is_empty segment random q).0 ≡ true
      from bare =
          let ends =
            record_items-ends slots q.k random 0 q.k q.item_records
              (λ j. bare ((random % q.k + j) % q.k) (mod-lt (random % q.k + j) pos)) in
          is_empty-compares ends
          ∙ compare_items-true slots q.k random 0 q.k recorded.1 (λ j lo hi.
            ((record_items-true slots q.k random 0 q.k q.item_records ends).0 j lo hi).1)

  -- The test writes nothing but the thread's records.
  pub is_empty-rest : (is_empty segment random q).1 ≡ record q { item_records = recorded.1 }
  unfolding is_empty
  is_empty-rest = refl
