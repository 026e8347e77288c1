-- ===== src/DataStructures/TsQueueBuffer/Emptiness.antt =====
-- What a removal that answers empty has seen, whatever the other threads do meanwhile.
use scal.Prelude.{
  ℕ, zero, suc, ◌+◌, ◌%◌, ◌≤◌, ◌<◌, ◌≡◌, Bool, true, false, not, ◌||◌, none, some, List, arith,
  refl, sym, ap, ◌∙◌, subst, update, update_self, update_ne, ℕ_discrete, false-true, none-some,
  same, same_iff, Bool-cases, Option-cases, inl, inr, round_at, round_at_lt, round_at_lem, ◌⊎◌,
}
use scal.DataStructures.TsTimestamp.{Stamp}
use scal.DataStructures.TsBuffer.{Buffer, removed_to}
use scal.DataStructures.TsBuffer.Onward.{IsBuffer, Onward, Onward-refl, Onward-trans, remove-Onward}
use scal.DataStructures.TsQueueBuffer.{
  Timestamping, TsQueueBuffer, Choice, Pass, start_pass, tick, visit, scan, take, try_remove_right,
  Round,
}
use scal.DataStructures.TsQueueBuffer.Visit.{
  AllBuffers, AllOnward, IsReady, IsEmptyAt, Goes, Goes-trans, IsChoice, IsChoice-onward, tick-Goes,
  visit-Goes, visit-IsChoice, visit-empty,
}

-- All buffers are empty at one moment between q and q'.
abbrev pub AllEmptyBetween : ℕ → TsQueueBuffer → TsQueueBuffer → Type 0
AllEmptyBetween n q q' =
    (m : ℕ → Buffer) × AllOnward q.buffers m
    × AllOnward m q'.buffers
    × ((k : ℕ) → k < n → IsEmptyAt m k)

module _ (ts : Timestamping) (interference : ℕ → (ℕ → Buffer) → ℕ → Buffer)
    (acts : (t : ℕ) (bs : ℕ → Buffer)
      → AllBuffers bs
      → AllBuffers (interference t bs) × AllOnward bs (interference t bs))
    (n : ℕ) where
  Goes-refl : (q : TsQueueBuffer) → IsReady q → Goes q q
  Goes-refl q v = record { ready = v; onward = λ k. Onward-refl (q.buffers k) }

  scan-Goes :
      (start i left : ℕ) (p : Pass) (q : TsQueueBuffer)
      → IsReady q
      → Goes q (scan ts interference n start i left p q).1
  unfolding scan
  scan-Goes start i zero p q v = Goes-refl q v
  scan-Goes start i (suc left) p q v =
      let here = visit-Goes ts interference acts n ((start + i) % n) p q v in
      let next = visit ts interference n ((start + i) % n) p q in
      Goes-trans here (scan-Goes start (suc i) left next.0 next.1 here.ready)

  scan-IsChoice :
      (start i left : ℕ) (p : Pass) (q : TsQueueBuffer)
      → IsReady q
      → ((c : Choice) → p.choice ≡ some c → IsChoice q.buffers c)
      → (c : Choice) → (scan ts interference n start i left p q).0.choice ≡ some c
      → IsChoice (scan ts interference n start i left p q).1.buffers c
  unfolding scan
  scan-IsChoice start i zero p q v h c e = h c e
  scan-IsChoice start i (suc left) p q v h c e =
      let next = visit ts interference n ((start + i) % n) p q in
      scan-IsChoice start (suc i) left next.0 next.1
        (visit-Goes ts interference acts n ((start + i) % n) p q v).ready
        (visit-IsChoice ts interference acts n ((start + i) % n) p q v h) c e

  scan-was_empty :
      (start i left : ℕ) (p : Pass) (q : TsQueueBuffer)
      → IsReady q
      → (scan ts interference n start i left p q).0.empty ≡ true
      → p.empty ≡ true
  unfolding scan
  scan-was_empty start i zero p q v e = e
  scan-was_empty start i (suc left) p q v e =
      let index = (start + i) % n in
      let next = visit ts interference n index p q in
      (visit-empty ts interference acts n index p q v (
        scan-was_empty start (suc i) left next.0 next.1
          (visit-Goes ts interference acts n index p q v).ready e)).0

  -- A pass that ends empty has met all its buffers empty since the moment s.
  scan-empty :
      (start i left : ℕ) (p : Pass) (q : TsQueueBuffer)
      → IsReady q
      → (s : ℕ → Buffer) → AllBuffers s
      → AllOnward s q.buffers
      → ((k : ℕ) → (q.checks k).value ≤ (s k).remove.value)
      → (scan ts interference n start i left p q).0.empty ≡ true
      → (p.empty ≡ true) × ((j : ℕ) → i ≤ j → j < i + left → IsEmptyAt s ((start + j) % n))
  unfolding scan
  scan-empty start i zero p q v s valid onward le e = (e, λ j lo hi. absurd (omega arith))
  scan-empty start i (suc left) p q v s valid onward le e =
      let index = (start + i) % n in
      let here = visit-Goes ts interference acts n index p q v in
      let next = visit ts interference n index p q in
      let seen = visit-empty ts interference acts n index p q v in
      let known : next.0.empty ≡ true → (k : ℕ) → (next.1.checks k).value ≤ (s k).remove.value =
        λ h k. rw ((seen h).1) (le k) in
      let next_empty : next.0.empty ≡ true =
        scan-was_empty start (suc i) left next.0 next.1 here.ready e in
      let later =
        scan-empty start (suc i) left next.0 next.1 here.ready s valid
          (λ k. Onward-trans (onward k) (here.onward k)) (known next_empty) e in
      (
        (seen next_empty).0,
        λ j lo hi. elim (ℕ_discrete i j) [
          | yes same_place ↦
              subst (λ j. IsEmptyAt s ((start + j) % n)) same_place
                ((seen next_empty).2 s valid onward (le index))
          | no ne ↦ later.1 j (omega arith) (omega arith)
        ],
      )

  -- The states between the accesses of an exchange.
  abbrev first_look : TsQueueBuffer → TsQueueBuffer
  first_look q = tick ts interference n q

  abbrev second_look : TsQueueBuffer → TsQueueBuffer
  second_look q = tick ts interference n (first_look q)

  take-Goes :
      (spurious : Bool) (c : Choice) (q : TsQueueBuffer)
      → IsReady q
      → IsChoice q.buffers c
      → Goes q (take ts interference n spurious c q).1
  unfolding take
  take-Goes spurious c q v h =
      let g₁ = tick-Goes ts interference acts n q v in
      let g₂ = Goes-trans g₁ (tick-Goes ts interference acts n (first_look q) g₁.ready) in
      elim (Bool-cases (same ((first_look q).buffers c.buffer_index).remove c.old_remove)) [
        | inr moved ↦ rw (moved, take) g₁
        | inl still ↦
            elim (Bool-cases (
              spurious
              || not (same ((second_look q).buffers c.buffer_index).remove c.old_remove))) [
                | inl fails ↦ rw (still, fails, take) g₂
                | inr wins ↦
                    rw (still, wins, take)
                      (Goes-trans
                        (Goes-trans g₂ (
                          removing (second_look q) g₂.ready
                            (IsChoice-onward q.buffers (second_look q).buffers c g₂.onward h)
                            (won wins)))
                        (tick-Goes ts interference acts n (removed (second_look q))
                          (removing (second_look q) g₂.ready
                            (IsChoice-onward q.buffers (second_look q).buffers c g₂.onward h)
                            (won wins)).ready))
              ]
      ]
    where
      removed : TsQueueBuffer → TsQueueBuffer
      removed r = record r {
        buffers =
            update r.buffers c.buffer_index
              (record (r.buffers c.buffer_index) { remove = removed_to c.result c.old_remove });
      }

      won :
          (spurious || not (same ((second_look q).buffers c.buffer_index).remove c.old_remove))
            ≡ false
          → ((second_look q).buffers c.buffer_index).remove ≡ c.old_remove
      won e =
          (same_iff ((second_look q).buffers c.buffer_index).remove c.old_remove).0
            (ground (arith, e))

      one :
          (r : TsQueueBuffer)
          → IsReady r
          → IsChoice r.buffers c
          → (r.buffers c.buffer_index).remove ≡ c.old_remove
          → IsBuffer
              (record (r.buffers c.buffer_index) { remove = removed_to c.result c.old_remove })
            × Onward
                (r.buffers c.buffer_index)
                (record (r.buffers c.buffer_index) { remove = removed_to c.result c.old_remove })
      one r w k e = rw (← k.0) (
          remove-Onward (r.buffers c.buffer_index) c.old_remove (w.valid c.buffer_index) e
            (omega (arith, k.1, ap (λ x. x.value) e)))

      removing :
          (r : TsQueueBuffer)
          → IsReady r
          → IsChoice r.buffers c
          → (r.buffers c.buffer_index).remove ≡ c.old_remove
          → Goes r (removed r)
      removing r w k e = record {
        ready = record {
          valid = λ j. (at j).0;
          remembered = λ j. omega (arith, w.remembered j, (at j).1.removes);
        };
        onward = λ j. (at j).1;
      }
        where
          at :
              (j : ℕ)
              → IsBuffer ((removed r).buffers j) × Onward (r.buffers j) ((removed r).buffers j)
          at j = elim (ℕ_discrete c.buffer_index j) [
            | yes here ↦
                subst
                  (λ j.
                    IsBuffer ((removed r).buffers j) × Onward (r.buffers j) ((removed r).buffers j))
                  here
                  (rw
                    (update_self r.buffers c.buffer_index (record (r.buffers c.buffer_index) {
                      remove = removed_to c.result c.old_remove;
                    }))
                    (one r w k e))
            | no ne ↦
                rw
                  (update_ne r.buffers c.buffer_index
                    (record (r.buffers c.buffer_index) {
                      remove = removed_to c.result c.old_remove;
                    })
                    j ne)
                  (w.valid j, Onward-refl (r.buffers j))
          ]

  module _ (start : ℕ) (start_time : Stamp) (spurious : Bool) (q : TsQueueBuffer) where
    abbrev scanned : Pass × TsQueueBuffer
    scanned = scan ts interference n start 0 n (start_pass ts) q

    abbrev attempt : (Bool × ℕ) × TsQueueBuffer
    attempt = try_remove_right ts interference n start start_time spurious q

    -- A removal without an element ends in a state after the pass.
    abbrev Ends : Type 0
    Ends = (attempt.0.0 ≡ true) ⊎ (attempt.0.0 ≡ not scanned.0.empty)

    attempt-none : scanned.0.choice ≡ none → attempt ≡ ((not scanned.0.empty, 0), scanned.1)
    unfolding try_remove_right
    attempt-none e = rw (e, try_remove_right) refl

    attempt-later :
        (c : Choice)
        → scanned.0.choice ≡ some c
        → ts.is_later scanned.0.timestamp start_time ≡ true
        → attempt ≡ ((not scanned.0.empty, 0), scanned.1)
    unfolding try_remove_right
    attempt-later c e h = rw (e, h, try_remove_right) refl

    attempt-fails :
        (c : Choice)
        → scanned.0.choice ≡ some c
        → ts.is_later scanned.0.timestamp start_time ≡ false
        → (take ts interference n spurious c scanned.1).0 ≡ none
        → attempt ≡ ((not scanned.0.empty, 0), (take ts interference n spurious c scanned.1).1)
    unfolding try_remove_right
    attempt-fails c e h t = rw (e, h, t, try_remove_right) refl

    attempt-takes :
        (c : Choice) (x : ℕ)
        → scanned.0.choice ≡ some c
        → ts.is_later scanned.0.timestamp start_time ≡ false
        → (take ts interference n spurious c scanned.1).0 ≡ some x
        → attempt ≡ ((true, x), (take ts interference n spurious c scanned.1).1)
    unfolding try_remove_right
    attempt-takes c x e h t = rw (e, h, t, try_remove_right) refl

    module _ (v : IsReady q) where
      scanned-Goes : Goes q scanned.1
      scanned-Goes = scan-Goes start 0 n (start_pass ts) q v

      scanned-IsChoice : (c : Choice) → scanned.0.choice ≡ some c → IsChoice scanned.1.buffers c
      scanned-IsChoice c e =
          scan-IsChoice start 0 n (start_pass ts) q v (λ d h. absurd (none-some h)) c e

      -- How an attempt ends: with the result of the pass, or with an element.
      attempt-ends :
          Goes q attempt.1
          × ((attempt.0.0 ≡ true)
              ⊎ ((attempt.0.0 ≡ not scanned.0.empty)
                  × AllOnward scanned.1.buffers attempt.1.buffers))
      attempt-ends = elim (Option-cases scanned.0.choice) [
        | inl e ↦
            rw (attempt-none e) (scanned-Goes, inr (refl, λ k. Onward-refl (scanned.1.buffers k)))
        | inr (c, e) ↦ elim (Bool-cases (ts.is_later scanned.0.timestamp start_time)) [
          | inl h ↦
              rw (attempt-later c e h)
                (scanned-Goes, inr (refl, λ k. Onward-refl (scanned.1.buffers k)))
          | inr h ↦
              let taking =
                take-Goes spurious c scanned.1 scanned-Goes.ready (scanned-IsChoice c e) in
              elim (Option-cases (take ts interference n spurious c scanned.1).0) [
                | inl t ↦
                    rw (attempt-fails c e h t)
                      (Goes-trans scanned-Goes taking, inr (refl, taking.onward))
                | inr (x, t) ↦
                    rw (attempt-takes c x e h t) (Goes-trans scanned-Goes taking, inl refl)
              ]
        ]
      ]

      -- Whatever the other threads do to the buffers, as long as they only insert behind the last
      -- item, stamp items and remove the oldest: an attempt that answers empty met all buffers empty
      -- at the moment it began. For the buffers well-formed, and remembered remove words that they
      -- have had.
      pub try_remove_right-empty : attempt.0.0 ≡ false → (k : ℕ) → k < n → IsEmptyAt q.buffers k
      try_remove_right-empty e k lt =
          let round = round_at n start k in
          subst (IsEmptyAt q.buffers) (round_at_lem n start k lt) (
            (scan-empty start 0 n (start_pass ts) q v q.buffers v.valid
                (λ k. Onward-refl (q.buffers k)) v.remembered (pass_empty attempt-ends.1)).1
              round (omega arith) (omega (arith, round_at_lt n start k (omega arith))))
        where
          not_true : {b : Bool} → not b ≡ false → b ≡ true
          not_true {b = true} h = refl
          not_true {b = false} h = absurd (false-true (sym h))

          pass_empty :
              (attempt.0.0 ≡ true)
                ⊎ ((attempt.0.0 ≡ not scanned.0.empty)
                    × AllOnward scanned.1.buffers attempt.1.buffers)
              → scanned.0.empty ≡ true
          pass_empty (inl h) = absurd (false-true (sym e ∙ h))
          pass_empty (inr h) = not_true (sym h.0 ∙ e)

  module _ (r : Round) (rounds : List Round) (q : TsQueueBuffer) where
    abbrev tried : (Bool × ℕ) × TsQueueBuffer
    tried = try_remove_right ts interference n r.start r.start_time r.spurious q
