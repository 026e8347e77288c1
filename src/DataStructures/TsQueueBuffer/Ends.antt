-- ===== src/DataStructures/TsQueueBuffer/Ends.antt =====
-- `TSQueue::dequeue` comes to an end when no other thread acts.
use scal.Prelude.{
  ℕ, zero, suc, ◌+◌, ◌%◌, ◌≤◌, ◌<◌, ◌≡◌, ◌≢◌, Bool, true, false, not, ◌==◌, none, some, List, [],
  ◌∷◌, arith, refl, sym, ap, ◌∙◌, subst, update, update_self, update_ne, false-true, ℕ_discrete,
  same, same_iff, Bool-cases, Option-cases, inl, inr, round_at, round_at_lt, round_at_lem, ◌⊎◌,
}
use native.Mathlib.Nat.{mod-lt}
use scal.DataStructures.TsTimestamp.{Stamp}
use scal.DataStructures.TsBuffer.{Buffer, is_empty}
use scal.DataStructures.TsQueueBuffer.{
  Timestamping, TsQueueBuffer, Pass, start_pass, tick, visit, scan, take, try_remove_right, Round,
  dequeue,
}
use scal.DataStructures.TsQueueBuffer.Knows.{IsOrder, first_item, first_stamp, quiet}
use scal.DataStructures.TsQueueBuffer.Oldest.{Removed, try_remove_right-oldest}

-- A round of `dequeue` without a spurious failure.
abbrev pub fair : ℕ → Stamp → Round
fair start start_time = record { start = start; start_time = start_time; spurious = false }

module _ (ts : Timestamping) (n : ℕ) where
  -- The word of buffer k is remembered.
  abbrev IsKnown : TsQueueBuffer → ℕ → Type 0
  IsKnown q k = q.checks k ≡ (q.buffers k).remove

  -- What a visit of an empty buffer does, when no other thread acts.
  record Remembers (index : ℕ) (p : Pass) (q : TsQueueBuffer) (r : Pass × TsQueueBuffer)
      : Type 0 where
    same_choice : r.0.choice ≡ p.choice
    same_buffers : r.1.buffers ≡ q.buffers
    now_known : IsKnown r.1 index
    still_known : (k : ℕ) → IsKnown q k → IsKnown r.1 k
    stays_empty : IsKnown q index → r.0.empty ≡ p.empty

  visit-Remembers :
      (index : ℕ) (p : Pass) (q : TsQueueBuffer)
      → is_empty (q.buffers index) ≡ true
      → Remembers index p q (visit ts quiet n index p q)
  unfolding visit tick
  visit-Remembers index p q e = elim (Bool-cases (same (q.checks index) (q.buffers index).remove)) [
    | inl h ↦
        let eq = (same_iff (q.checks index) (q.buffers index).remove).0 h in
        rw (e, h)
          (record {
            same_choice = refl;
            same_buffers = refl;
            now_known = eq;
            still_known = λ k known. known;
            stays_empty = λ known. refl;
          })
    | inr h ↦
        rw (e, h)
          (record {
            same_choice = refl;
            same_buffers = refl;
            now_known = update_self q.checks index (q.buffers index).remove;
            still_known = λ k known. elim (ℕ_discrete index k) [
              | yes here ↦
                  subst
                    (λ k. update q.checks index (q.buffers index).remove k ≡ (q.buffers k).remove)
                    here (update_self q.checks index (q.buffers index).remove)
              | no ne ↦ update_ne q.checks index (q.buffers index).remove k ne ∙ known
            ];
            stays_empty = λ known.
                absurd (
                  false-true
                    (sym h ∙ (same_iff (q.checks index) (q.buffers index).remove).1 known));
          })
  ]

  module _ (bs : ℕ → Buffer) (bare : (k : ℕ) → k < n → is_empty (bs k) ≡ true) where
    record Scanned (start i left : ℕ) (p : Pass) (q : TsQueueBuffer) (r : Pass × TsQueueBuffer)
        : Type 0 where
      same_choice : r.0.choice ≡ p.choice
      same_buffers : r.1.buffers ≡ bs
      now_known : (j : ℕ) → i ≤ j → j < i + left → IsKnown r.1 ((start + j) % n)
      still_known : (k : ℕ) → IsKnown q k → IsKnown r.1 k
      stays_empty : ((k : ℕ) → k < n → IsKnown q k) → r.0.empty ≡ p.empty

    scan-Scanned :
        (start i left : ℕ) (p : Pass) (q : TsQueueBuffer)
        → 0 < n
        → q.buffers ≡ bs
        → Scanned start i left p q (scan ts quiet n start i left p q)
    unfolding scan
    scan-Scanned start i zero p q pos at = record {
      same_choice = refl;
      same_buffers = at;
      now_known = λ j lo hi. absurd (omega arith);
      still_known = λ k known. known;
      stays_empty = λ known. refl;
    }
    scan-Scanned start i (suc left) p q pos at =
        let index = (start + i) % n in
        let next = visit ts quiet n index p q in
        let here =
          visit-Remembers index p q
            (ap (λ f. is_empty (f index)) at ∙ bare index (mod-lt (start + i) pos)) in
        let rest = scan-Scanned start (suc i) left next.0 next.1 pos (here.same_buffers ∙ at) in
        record {
          same_choice = rest.same_choice ∙ here.same_choice;
          same_buffers = rest.same_buffers;
          now_known = λ j lo hi. elim (ℕ_discrete i j) [
            | yes first ↦
                subst
                  (λ j.
                    IsKnown (scan ts quiet n start (suc i) left next.0 next.1).1 ((start + j) % n))
                  first (rest.still_known index here.now_known)
            | no later ↦ rest.now_known j (omega arith) (omega arith)
          ];
          still_known = λ k known. rest.still_known k (here.still_known k known);
          stays_empty = λ known.
              rest.stays_empty (λ k lt. here.still_known k (known k lt))
              ∙ here.stays_empty (known index (mod-lt (start + i) pos));
        }

    -- A removal from empty buffers, and one more: the words are remembered, then it answers empty.
    removal :
        (start : ℕ) (start_time : Stamp) (q : TsQueueBuffer)
        → 0 < n
        → q.buffers ≡ bs
        → let r = try_remove_right ts quiet n start start_time false q in
          (r.0.1 ≡ 0)
          × (r.1.buffers ≡ bs)
          × ((k : ℕ) → k < n → IsKnown r.1 k)
          × (((k : ℕ) → k < n → IsKnown q k) → r.0.0 ≡ false)
    unfolding try_remove_right
    removal start start_time q pos at =
        let s = scan-Scanned start 0 n (start_pass ts) q pos at in
        rw (s.same_choice, try_remove_right)
          (
            refl,
            s.same_buffers,
            λ k lt.
                subst (IsKnown (scan ts quiet n start 0 n (start_pass ts) q).1)
                  (round_at_lem n start k lt)
                  (s.now_known (round_at n start k) (omega arith)
                    (omega (arith, round_at_lt n start k pos))),
            λ known. ap not (s.stays_empty known),
          )

  dequeue-none :
      (r : Round) (rounds : List Round) (q : TsQueueBuffer)
      → (try_remove_right ts quiet n r.start r.start_time r.spurious q).0.0 ≡ false
      → (dequeue ts quiet n (r ∷ rounds) q).0 ≡ some none
  unfolding dequeue
  dequeue-none r rounds q e = rw (e, dequeue) refl

  dequeue-some :
      (r : Round) (rounds : List Round) (q : TsQueueBuffer)
      → (try_remove_right ts quiet n r.start r.start_time r.spurious q).0.0 ≡ true
      → ((try_remove_right ts quiet n r.start r.start_time r.spurious q).0.1 == 0) ≡ false
      → (dequeue ts quiet n (r ∷ rounds) q).0
        ≡ some (some (try_remove_right ts quiet n r.start r.start_time r.spurious q).0.1)
  unfolding dequeue
  dequeue-some r rounds q e h = rw (e, h, dequeue) refl

  dequeue-next :
      (r : Round) (rounds : List Round) (q : TsQueueBuffer)
      → (try_remove_right ts quiet n r.start r.start_time r.spurious q).0.0 ≡ true
      → ((try_remove_right ts quiet n r.start r.start_time r.spurious q).0.1 == 0) ≡ true
      → (dequeue ts quiet n (r ∷ rounds) q).0
        ≡ (dequeue ts quiet n rounds
            (try_remove_right ts quiet n r.start r.start_time r.spurious q).1).0
  unfolding dequeue
  dequeue-next r rounds q e h = rw (e, h, dequeue) refl

  -- Only a removal that has met something, or remembered a word, goes on.
  found_goes_on :
      (start : ℕ) (start_time : Stamp) (q : TsQueueBuffer)
      → ((try_remove_right ts quiet n start start_time false q).0.1 == 0) ≡ false
      → (try_remove_right ts quiet n start start_time false q).0.0 ≡ true
  unfolding try_remove_right
  found_goes_on start start_time q e =
      let s = scan ts quiet n start 0 n (start_pass ts) q in
      elim (Option-cases s.0.choice) [
        | inl nothing ↦ absurd (false-true (sym e ∙ rw (nothing, try_remove_right) refl))
        | inr (c, chosen) ↦ elim (Bool-cases (ts.is_later s.0.timestamp start_time)) [
          | inl late ↦ absurd (false-true (sym e ∙ rw (chosen, late, try_remove_right) refl))
          | inr in_time ↦ elim (Option-cases (take ts quiet n false c s.1).0) [
            | inl lost ↦
                absurd (false-true (sym e ∙ rw (chosen, in_time, lost, try_remove_right) refl))
            | inr (x, taken) ↦ rw (chosen, in_time, taken, try_remove_right) refl
          ]
        ]
      ]

  -- With at least one buffer, when no other thread acts and no exchange fails without a reason, two
  -- rounds of `dequeue` are enough: if every item at the front of a buffer is stamped, before the
  -- removal began, and is not 0, then it returns such an item, or it answers empty, and then all
  -- buffers are empty. The stamps are ones that `is_later` orders strictly.
  pub dequeue_returns :
      (IsProper : Stamp → Type 0) (start start' : ℕ) (time time' : Stamp) (q : TsQueueBuffer)
      → IsOrder ts IsProper
      → 0 < n
      → ((k : ℕ) → IsProper (first_stamp (q.buffers k)))
      → ((k : ℕ)
          → is_empty (q.buffers k) ≡ false
          → (ts.is_later ts.top (first_stamp (q.buffers k)) ≡ true)
            × (ts.is_later (first_stamp (q.buffers k)) time ≡ false)
            × (((q.buffers k).heap (first_item (q.buffers k))).data_ ≢ 0))
      → let r = dequeue ts quiet n (fair start time ∷ fair start' time' ∷ []) q in
        ((r.0 ≡ some none) × ((k : ℕ) → k < n → is_empty (q.buffers k) ≡ true))
        ⊎ ((x : ℕ) × (r.0 ≡ some (some x))
            × (x ≢ 0)
            × Removed ts n time q.buffers x
                (try_remove_right ts quiet n start time false q).1.buffers)
  dequeue_returns IsProper start start' time time' q order pos proper stamped =
      elim (try_remove_right-oldest ts IsProper n start time q order proper) [
        | inl removed ↦
            let real = (stamped removed.index removed.filled).2 in
            let found = not_zero removed.element real in
            inr (
              first.0.1,
              dequeue-some (fair start time) (fair start' time' ∷ []) q
                  (found_goes_on start time q found) found,
              λ z. real (sym removed.element ∙ z),
              removed,
            )
        | inr kept ↦ elim kept.reason [
          | inl unstamped ↦ let bare = all_bare unstamped in inl (two_rounds bare, bare)
          | inr late ↦ absurd (false-true (sym (stamped late.0 late.1).1 ∙ late.2))
        ]
      ]
    where
      first : (Bool × ℕ) × TsQueueBuffer
      first = try_remove_right ts quiet n start time false q

      not_zero : {x y : ℕ} → x ≡ y → y ≢ 0 → (x == 0) ≡ false
      not_zero e ne = ground arith

      all_bare :
          ((k : ℕ)
            → k < n
            → is_empty (q.buffers k) ≡ false
            → ts.is_later ts.top (first_stamp (q.buffers k)) ≡ false)
          → (k : ℕ) → k < n
          → is_empty (q.buffers k) ≡ true
      all_bare unstamped k lt = elim (Bool-cases (is_empty (q.buffers k))) [
        | inl e ↦ e
        | inr full ↦ absurd (false-true (sym (unstamped k lt full) ∙ (stamped k full).0))
      ]

      two_rounds :
          ((k : ℕ) → k < n → is_empty (q.buffers k) ≡ true)
          → (dequeue ts quiet n (fair start time ∷ fair start' time' ∷ []) q).0 ≡ some none
      two_rounds bare =
          let one = removal q.buffers bare start time q pos refl in
          let two = removal q.buffers bare start' time' first.1 pos one.1 in
          elim (Bool-cases first.0.0) [
            | inr ends ↦ dequeue-none (fair start time) (fair start' time' ∷ []) q ends
            | inl more ↦
                dequeue-next (fair start time) (fair start' time' ∷ []) q more (rw one.0 refl)
                ∙ dequeue-none (fair start' time') [] first.1 (two.3 one.2)
          ]
