-- ===== src/DataStructures/DistributedQueue/SecondLoop.antt =====
-- The loop of `get` that looks whether a backend has changed.
use scal.Prelude.{
  ℕ, zero, suc, ◌+◌, ◌%◌, ◌≤◌, ◌<◌, ◌≡◌, ◌≢◌, true, false, ◌==◌, arith, refl, ==_iff, Bool,
  ℕ_discrete, Bool-cases, inl, inr, sym, ap, subst, ◌∙◌,
}
use scal.DataStructures.DistributedQueue.{Backend, DistributedQueue, empty, again, tick, check_all}
use scal.DataStructures.DistributedQueue.Ring.{last-place, index-lt}
use scal.DataStructures.DistributedQueue.FirstLoop.{Laws, Onward, tick-Onward, tick-tails}

module _ (b : Backend) (l : Laws b) (interference : ℕ → (ℕ → b.State) → ℕ → b.State)
    (acts : (t : ℕ) (bs : ℕ → b.State) (k : ℕ) → l.Later (bs k) (interference t bs k)) (n : ℕ) where
  -- A state of backend k, between those of q and q', was the one that the thread's row holds.
  abbrev pub Confirmed : DistributedQueue b → DistributedQueue b → ℕ → Type 0
  Confirmed q q' k =
      (v : b.State) × l.Later (q.backends k) v
      × l.Later v (q'.backends k)
      × (b.empty_state v ≡ q.tails k)

  confirm_earlier :
      (k : ℕ) (q q' q'' : DistributedQueue b)
      → Onward b l interference acts n q q'
      → q'.tails ≡ q.tails
      → Confirmed q' q'' k
      → Confirmed q q'' k
  confirm_earlier k q q' q'' onward tails c =
      (c.0, l.later_trans (onward k) c.1, c.2, c.3 ∙ ap (λ f. f k) tails)

  pub check_all-Onward :
      (start i left : ℕ) (q : DistributedQueue b)
      → Onward b l interference acts n q (check_all b interference n start i left q).1
  unfolding check_all
  check_all-Onward start i zero q k = l.later_refl (q.backends k)
  check_all-Onward start i (suc left) q k =
      let q' = tick b interference n q in
      let index = (start + i) % n in
      elim (Bool-cases (b.empty_state (q'.backends index) == q'.tails index)) [
        | inr changed ↦ rw (changed, check_all) (tick-Onward b l interference acts n q k)
        | inl same ↦ elim (Bool-cases ((index + 1) % n == start)) [
          | inl last ↦ rw (same, last, check_all) (tick-Onward b l interference acts n q k)
          | inr more ↦
              rw (same, more, check_all)
                (l.later_trans (tick-Onward b l interference acts n q k)
                  (check_all-Onward start (suc i) left q' k))
        ]
      ]

  again_empty : {s : ℕ} → again s ≢ empty
  again_empty e = ground arith

  -- The test that the second loop makes at the index.
  abbrev unchanged_at : ℕ → DistributedQueue b → Bool
  unchanged_at index q =
      b.empty_state ((tick b interference n q).backends index)
      == (tick b interference n q).tails index

  check_changed :
      (start i left : ℕ) (q : DistributedQueue b)
      → unchanged_at ((start + i) % n) q ≡ false
      → check_all b interference n start i (suc left) q
        ≡ (again ((start + i) % n), tick b interference n q)
  unfolding check_all
  check_changed start i left q e = rw (e, check_all) refl

  check_last :
      (start i left : ℕ) (q : DistributedQueue b)
      → unchanged_at ((start + i) % n) q ≡ true
      → (((start + i) % n + 1) % n == start) ≡ true
      → check_all b interference n start i (suc left) q ≡ (empty, tick b interference n q)
  unfolding check_all
  check_last start i left q e h = rw (e, h, check_all) refl

  check_more :
      (start i left : ℕ) (q : DistributedQueue b)
      → unchanged_at ((start + i) % n) q ≡ true
      → (((start + i) % n + 1) % n == start) ≡ false
      → check_all b interference n start i (suc left) q
        ≡ check_all b interference n start (suc i) left (tick b interference n q)
  unfolding check_all
  check_more start i left q e h = rw (e, h, check_all) refl

  tick-Confirmed :
      (index : ℕ) (q q' : DistributedQueue b)
      → unchanged_at index q ≡ true
      → Onward b l interference acts n (tick b interference n q) q'
      → Confirmed q q' index
  tick-Confirmed index q q' e onward =
      let t = tick b interference n q in
      (
        t.backends index,
        tick-Onward b l interference acts n q index,
        onward index,
        (==_iff (b.empty_state (t.backends index)) (t.tails index)).0 e
            ∙ ap (λ f. f index) (tick-tails b l interference acts n q),
      )

  -- A second loop that ends with the verdict empty has confirmed all places from i on.
  pub check_all-Confirmed :
      (start i left j : ℕ) (q : DistributedQueue b)
      → start < n
      → i + left ≡ n
      → (check_all b interference n start i left q).0 ≡ empty
      → i ≤ j
      → j < n
      → Confirmed q (check_all b interference n start i left q).1 ((start + j) % n)
  check_all-Confirmed start i zero j q s e v le lt = absurd (omega arith)
  check_all-Confirmed start i (suc left) j q s e v le lt =
      let index = (start + i) % n in
      let t = tick b interference n q in
      elim (Bool-cases (unchanged_at index q)) [
        | inr changed ↦
            absurd (again_empty (sym (ap (λ r. r.0) (check_changed start i left q changed)) ∙ v))
        | inl same ↦ elim (Bool-cases ((index + 1) % n == start)) [
          | inl last ↦
              let ends =
                last-place start i n s (omega arith) ((==_iff ((index + 1) % n) start).0 last) in
              rw (check_last start i left q same last) (
                subst (λ j. Confirmed q t ((start + j) % n)) (the_place ends)
                  (tick-Confirmed index q t same (λ k. l.later_refl (t.backends k))))
          | inr more ↦
              let step = check_more start i left q same more in
              rw step (elim (ℕ_discrete i j) [
                | yes here ↦
                    subst
                      (λ j.
                        Confirmed q (check_all b interference n start (suc i) left t).1
                          ((start + j) % n))
                      here
                      (tick-Confirmed index q (check_all b interference n start (suc i) left t).1
                        same (check_all-Onward start (suc i) left t))
                | no later ↦
                    confirm_earlier ((start + j) % n) q t
                      (check_all b interference n start (suc i) left t).1
                      (tick-Onward b l interference acts n q) (tick-tails b l interference acts n q)
                      (check_all-Confirmed start (suc i) left j t s (omega arith)
                        (sym (ap (λ r. r.0) step) ∙ v) (omega arith) lt)
              ])
        ]
      ]
    where
      the_place : suc i ≡ n → i ≡ j
      the_place ends = omega arith

  pub again-start :
      (start i left : ℕ) (q : DistributedQueue b)
      → start < n
      → (next : ℕ) → (check_all b interference n start i left q).0 ≡ again next
      → next < n
  unfolding check_all
  again-start start i zero q s next e = ground (arith, e)
  again-start start i (suc left) q s next e =
      let index = (start + i) % n in
      elim (Bool-cases (unchanged_at index q)) [
        | inr changed ↦ ground (
          arith,
          index-lt start i n s,
          sym (ap (λ r. r.0) (check_changed start i left q changed)) ∙ e,
        )
        | inl same ↦ elim (Bool-cases ((index + 1) % n == start)) [
          | inl last ↦ ground (arith, sym (ap (λ r. r.0) (check_last start i left q same last)) ∙ e)
          | inr more ↦
              again-start start (suc i) left (tick b interference n q) s next
                (sym (ap (λ r. r.0) (check_more start i left q same more)) ∙ e)
        ]
      ]
