-- ===== src/DataStructures/DistributedQueue/Observed.antt =====
-- What a `get` that answers `found_empty` has seen.
use scal.Prelude.{
  ℕ, zero, suc, ◌<◌, ◌≡◌, ◌≢◌, Option, none, some, arith, refl, Option-cases, inl, inr, sym, ap,
  subst, ◌∙◌, ◌⊎◌,
}
use scal.DataStructures.DistributedQueue.{
  Backend, DistributedQueue, Verdict, empty, again, got, found_empty, try_all, check_all, get,
}
use scal.DataStructures.DistributedQueue.Ring.{place-of}
use scal.DataStructures.DistributedQueue.FirstLoop.{Laws, try_all-Onward, try_all-Seen}
use scal.DataStructures.DistributedQueue.SecondLoop.{
  check_all-Onward, check_all-Confirmed, Confirmed, again-start,
}

module _ (b : Backend) (l : Laws b) (interference : ℕ → (ℕ → b.State) → ℕ → b.State)
    (acts : (t : ℕ) (bs : ℕ → b.State) (k : ℕ) → l.Later (bs k) (interference t bs k)) (n : ℕ) where
  -- The last round of a call, which begins in a state r that q leads to and ends in q': between its two
  -- loops all backends are empty.
  abbrev pub AllEmptyBetween : DistributedQueue b → DistributedQueue b → Type 0
  AllEmptyBetween q q' =
      (start : ℕ) × (r : DistributedQueue b) × ((k : ℕ) → l.Later (q.backends k) (r.backends k))
      × (check_all b interference n start 0 n (try_all b interference n start 0 n r).1
          ≡ (empty, q'))
      × ((k : ℕ) → k < n → l.IsEmpty ((try_all b interference n start 0 n r).1.backends k))

  abbrev pub AllYoung : DistributedQueue b → Type 0
  AllYoung q = (k : ℕ) → k < n → l.IsYoung (q.backends k)

  -- One round that finds nothing, and nothing changed.
  round-AllEmptyBetween :
      (start : ℕ) (q : DistributedQueue b)
      → start < n
      → AllYoung (check_all b interference n start 0 n (try_all b interference n start 0 n q).1).1
      → (try_all b interference n start 0 n q).0 ≡ none
      → (check_all b interference n start 0 n (try_all b interference n start 0 n q).1).0 ≡ empty
      → AllEmptyBetween q
          (check_all b interference n start 0 n (try_all b interference n start 0 n q).1).1
  round-AllEmptyBetween start q s young nothing same =
      let m = (try_all b interference n start 0 n q).1 in
      (
        start,
        q,
        λ k. l.later_refl (q.backends k),
        ap (λ v. (v, (check_all b interference n start 0 n m).1)) same,
        λ k lt.
            let place = place-of start n k s lt in
            let seen =
              try_all-Seen b l interference acts n start 0 n k q nothing
                (inr (place.0, omega arith, omega (arith, place.1), place.2)) in
            let confirmed =
              subst (Confirmed b l interference acts n m (check_all b interference n start 0 n m).1)
                place.2
                (check_all-Confirmed b l interference acts n start 0 n place.0 m s (omega arith)
                  same (omega arith) place.1) in
            l.unchanged seen.3 confirmed.1 (l.young_before confirmed.2 (young k lt))
              (seen.2 ∙ sym confirmed.3) seen.1,
      )

  -- The states after the two loops of a round.
  abbrev first_loop : ℕ → DistributedQueue b → Option ℕ × DistributedQueue b
  first_loop start q = try_all b interference n start 0 n q

  abbrev second_loop : ℕ → DistributedQueue b → Verdict × DistributedQueue b
  second_loop start q = check_all b interference n start 0 n (first_loop start q).1

  get-got :
      (fuel start x : ℕ) (q : DistributedQueue b)
      → (first_loop start q).0 ≡ some x
      → (get b interference n (suc fuel) start q).0 ≡ got x
  unfolding get
  get-got fuel start x q e = rw (e, get) refl

  get-ends :
      (fuel start : ℕ) (q : DistributedQueue b)
      → (first_loop start q).0 ≡ none
      → (second_loop start q).0 ≡ empty
      → get b interference n (suc fuel) start q ≡ (found_empty, (second_loop start q).1)
  unfolding get
  get-ends fuel start q e v = rw (e, v, get) refl

  get-again :
      (fuel start next : ℕ) (q : DistributedQueue b)
      → (first_loop start q).0 ≡ none
      → (second_loop start q).0 ≡ again next
      → get b interference n (suc fuel) start q
        ≡ get b interference n fuel next (second_loop start q).1
  unfolding get
  get-again fuel start next q e v = rw (e, v, get) refl

  got_found_empty : {x : ℕ} → got x ≢ found_empty
  got_found_empty e = ground arith

  Verdict-cases : (v : Verdict) → (v ≡ empty) ⊎ ((next : ℕ) × (v ≡ again next))
  Verdict-cases empty = inl refl
  Verdict-cases (again next) = inr (next, refl)

  -- If `get` answers that the pool is empty and the backends are young by then, all of them were empty
  -- between the two loops of the last round.
  pub get-found_empty :
      (fuel start : ℕ) (q : DistributedQueue b)
      → start < n
      → AllYoung (get b interference n fuel start q).1
      → (get b interference n fuel start q).0 ≡ found_empty
      → AllEmptyBetween q (get b interference n fuel start q).1
  unfolding get
  get-found_empty zero start q s young e = ground (arith, e)
  get-found_empty (suc fuel) start q s young e = elim (Option-cases (first_loop start q).0) [
    | inr found ↦ absurd (got_found_empty (sym (get-got fuel start found.0 q found.1) ∙ e))
    | inl nothing ↦ elim (Verdict-cases (second_loop start q).0) [
      | inl ends ↦
          let end = get-ends fuel start q nothing ends in
          rw end (
            round-AllEmptyBetween start q s (subst AllYoung (ap (λ r. r.1) end) young) nothing ends)
      | inr next ↦
          let step = get-again fuel start next.0 q nothing next.1 in
          let q' = (second_loop start q).1 in
          let later =
            get-found_empty fuel next.0 q'
              (again-start b l interference acts n start 0 n (first_loop start q).1 s next.0 next.1)
              (subst AllYoung (ap (λ r. r.1) step) young) (sym (ap (λ r. r.0) step) ∙ e) in
          rw step (
            later.0,
            later.1,
            λ k.
                l.later_trans
                  (l.later_trans (try_all-Onward b l interference acts n start 0 n q k)
                    (check_all-Onward b l interference acts n start 0 n (first_loop start q).1 k))
                  (later.2 k),
            later.3,
            later.4,
          )
    ]
  ]
