-- ===== src/Util/Barrier/Rounds.antt =====
-- The invariant of the barrier.
use scal.Prelude.{
  ℕ, suc, ◌+◌, ◌*◌, ◌/◌, ◌%◌, ◌^◌, ◌<◌, ◌≤◌, ◌≡◌, ◌≢◌, ◌⊎◌, Bool, true, false, arith, refl, sym, ap,
  ◌∙◌, subst, inl, inr, update, update_self, update_ne, ℕ_discrete, false-true,
}
use scal.Util.Barrier.{next_round, Place, outside, waiting, SpinningBarrier, arrived, left}
use scal.Util.Barrier.Totals.{total, total-update, total-full}
use native.Mathlib.Nat.{
  suc-mul, mul_comm, lt_of_mul-lt-mul_right, mod-eq_of_lt, le-div_iff_mul-le, div-lt_iff_lt-mul,
}

lt_or_le : (m n : ℕ) → (m < n) ⊎ (n ≤ m)
lt_or_le m n = grind arith

Place-cases : (p : Place) → (p ≡ outside) ⊎ ((old : ℕ) × (p ≡ waiting old))
Place-cases outside = inl refl
Place-cases (waiting old) = inr (old, refl)

abbrev is_outside : Place → Bool
is_outside outside = true
is_outside (waiting old) = false

abbrev ticket : Place → ℕ
ticket outside = 0
ticket (waiting old) = old

pub outside-waiting : {old : ℕ} → outside ≢ waiting old
outside-waiting e = false-true (sym (ap is_outside e))

-- A ticket of the round that is the thread's last one.
abbrev pub InRound : (num w old : ℕ) → Type 0
InRound num w old = (c : ℕ) × (w ≡ suc c) × (c * num ≤ old) × (old < suc c * num)

pub record IsBarrier (num : ℕ) (b : SpinningBarrier) : Type 0 where
  pub counts : b.cnt ≡ total num b.waits
  pub rounds : (k u : ℕ) → k * num ≤ b.cnt → u < num → k ≤ b.waits u
  pub finished : (i : ℕ) → i < num → b.place i ≡ outside → b.waits i * num ≤ b.cnt
  pub begun :
      (i old : ℕ) → i < num → b.place i ≡ waiting old → InRound num (b.waits i) old × (old < b.cnt)

-- No counter has wrapped around.
abbrev pub IsSmall : ℕ → SpinningBarrier → Type 0
IsSmall num b = total num b.waits + num ≤ 2 ^ 64

next_round-lem :
    (num w old : ℕ)
    → 0 < num
    → InRound num w old
    → old + num < 2 ^ 64
    → next_round num old ≡ w * num
unfolding next_round
next_round-lem num w old pos (c, e, lo, hi) fits =
    let quotient : old / num ≡ c = omega (
      arith,
      (le-div_iff_mul-le {k = num} {x = c} {y = old} pos).1 lo,
      (div-lt_iff_lt-mul {k = num} {x = old} {y = suc c} pos).1 hi,
    ) in
    rw (quotient, e) (mod-eq_of_lt (omega (arith, lo, fits)) ∙ sym (suc-mul c num))

module _ (num : ℕ) (pos : 0 < num) (b : SpinningBarrier) (v : IsBarrier num b) where
  pub waits-next :
      (i old : ℕ)
      → i < num
      → b.place i ≡ waiting old
      → IsSmall num b
      → next_round num old ≡ b.waits i * num
  waits-next i old lt at small =
      let (round, before) = v.begun i old lt at in
      next_round-lem num (b.waits i) old pos round (omega (arith, before, small, v.counts))

  pub leave-IsBarrier :
      (i old : ℕ)
      → i < num
      → b.place i ≡ waiting old
      → next_round num old ≤ b.cnt
      → IsSmall num b
      → IsBarrier num (left i b)
  leave-IsBarrier i old lt at le small = record {
    counts = v.counts;
    rounds = v.rounds;
    finished = λ j lt' out. elim (ℕ_discrete i j) [
      | yes e ↦
          subst (λ j. b.waits j * num ≤ b.cnt) e
            (subst (λ m. m ≤ b.cnt) (waits-next i old lt at small) le)
      | no ne ↦ v.finished j lt' (sym (update_ne b.place i outside j ne) ∙ out)
    ];
    begun = λ j old' lt' at'. elim (ℕ_discrete i j) [
      | yes e ↦ absurd (
          outside-waiting
            (sym (update_self b.place i outside) ∙ ap (update b.place i outside) e ∙ at'))
      | no ne ↦ v.begun j old' lt' (sym (update_ne b.place i outside j ne) ∙ at')
    ];
  }

  module _ (i : ℕ) (lt : i < num) (at : b.place i ≡ outside)
      (small : IsSmall num (arrived i b)) where
    abbrev waits' : ℕ → ℕ
    waits' = update b.waits i (suc (b.waits i))

    one_more : total num waits' ≡ suc b.cnt
    one_more = omega (arith, total-update num i b.waits lt, v.counts)

    no_wrap : (b.cnt + 1) % 2 ^ 64 ≡ suc b.cnt
    no_wrap = mod-eq_of_lt (omega (arith, small, one_more, pos)) ∙ omega arith

    waits-grow : (u : ℕ) → b.waits u ≤ waits' u
    waits-grow u = elim (ℕ_discrete i u) [
      | yes e ↦
          subst (λ u. b.waits u ≤ waits' u) e
            (omega (arith, update_self b.waits i (suc (b.waits i))))
      | no ne ↦ omega (arith, update_ne b.waits i (suc (b.waits i)) u ne)
    ]

    -- When the arrival completes the k-th round, no thread has begun more than k waits.
    at_most : (k u : ℕ) → k * num ≡ suc b.cnt → u < num → waits' u ≤ k
    at_most k u e less = elim (ℕ_discrete i u) [
      | yes here ↦
          subst (λ u. waits' u ≤ k) here
            (omega (
              arith,
              update_self b.waits i (suc (b.waits i)),
              lt_of_mul-lt-mul_right num {m = b.waits i} {n = k}
                  (omega (arith, v.finished i lt at, e)),
            ))
      | no ne ↦ elim (Place-cases (b.place u)) [
        | inl out ↦ omega (
          arith,
          update_ne b.waits i (suc (b.waits i)) u ne,
          lt_of_mul-lt-mul_right num {m = b.waits u} {n = k}
              (omega (arith, v.finished u less out, e)),
        )
        | inr (old, in_wait) ↦
            let ((c, w, lo, hi), before) = v.begun u old less in_wait in
            omega (
              arith,
              update_ne b.waits i (suc (b.waits i)) u ne,
              w,
              lt_of_mul-lt-mul_right num {m = c} {n = k} (omega (arith, lo, before, e)),
            )
      ]
    ]

    pub arrive-IsBarrier : IsBarrier num (arrived i b)
    arrive-IsBarrier = record {
      counts = no_wrap ∙ sym one_more;
      rounds = λ k u le less. elim (ℕ_discrete (k * num) (suc b.cnt)) [
        | yes e ↦ omega (
          arith,
          total-full num k waits' (λ u' less'. at_most k u' e less')
              (one_more ∙ sym e ∙ mul_comm k num) u less,
        )
        | no ne ↦ omega (
          arith,
          waits-grow u,
          v.rounds k u (omega (arith, ne, subst (λ m. k * num ≤ m) no_wrap le)) less,
        )
      ];
      finished = λ j less out. elim (ℕ_discrete i j) [
        | yes e ↦ absurd (
            outside-waiting (
              sym out
              ∙ ap (update b.place i (waiting b.cnt)) (sym e)
              ∙ update_self b.place i (waiting b.cnt)))
        | no ne ↦
            let old = v.finished j less (sym (update_ne b.place i (waiting b.cnt) j ne) ∙ out) in
            rw (update_ne b.waits i (suc (b.waits i)) j ne) (omega (arith, old, no_wrap))
      ];
      begun = λ j old less at'. elim (ℕ_discrete i j) [
        | yes e ↦
            let here : old ≡ b.cnt = ap ticket (
              sym at'
              ∙ ap (update b.place i (waiting b.cnt)) (sym e)
              ∙ update_self b.place i (waiting b.cnt)) in
            (
              (
                b.waits i,
                ap waits' (sym e) ∙ update_self b.waits i (suc (b.waits i)),
                omega (arith, here, v.finished i lt at),
                omega (arith, here, not_complete),
              ),
              omega (arith, here, no_wrap),
            )
        | no ne ↦
            let (round, before) =
              v.begun j old less (sym (update_ne b.place i (waiting b.cnt) j ne) ∙ at') in
            (rw (update_ne b.waits i (suc (b.waits i)) j ne) round, omega (arith, before, no_wrap))
      ];
    }
      where
        not_complete : b.cnt < suc (b.waits i) * num
        not_complete = elim (lt_or_le b.cnt (suc (b.waits i) * num)) [
          | inl fine ↦ fine
          | inr le ↦ absurd (omega (arith, v.rounds (suc (b.waits i)) i le lt))
        ]
