-- ===== src/DataStructures/DistributedQueue/FirstLoop.antt =====
-- The loop of `get` over all backends, as long as it finds nothing.
use scal.Prelude.{
  none-some, ℕ, zero, suc, ◌+◌, ◌%◌, ◌≤◌, ◌<◌, ◌≡◌, Option, none, some, arith, refl, update,
  update_self, update_ne, ℕ_discrete, Option-cases, inl, inr, sym, ap, subst, ◌∙◌, ◌⊎◌,
}
use scal.DataStructures.DistributedQueue.{Backend, DistributedQueue, tick, try_one, try_all}

-- What the empty states of a backend are for: `Later` orders its states in time; a get that finds
-- nothing reports the state it has seen; and an empty state that is seen again has not been left
-- meanwhile, if the later one is young: the empty states may recur in an old one.
pub record Laws (b : Backend) : Type 1 where
  pub Later : b.State → b.State → Type 0
  pub IsEmpty : b.State → Type 0
  pub IsYoung : b.State → Type 0
  pub later_refl : (s : b.State) → Later s s
  pub later_trans : {s u v : b.State} → Later s u → Later u v → Later s v
  pub later_get : (s : b.State) → Later s (b.get_return_empty_state s).1.1
  pub get_none :
      (s : b.State)
      → (b.get_return_empty_state s).0 ≡ none
      → IsEmpty s × ((b.get_return_empty_state s).1.0 ≡ b.empty_state s)
  pub young_before : {s u : b.State} → Later s u → IsYoung u → IsYoung s
  pub unchanged :
      {s u v : b.State}
      → Later s u
      → Later u v
      → IsYoung v
      → b.empty_state s ≡ b.empty_state v
      → IsEmpty s
      → IsEmpty u

module _ (b : Backend) (l : Laws b) (interference : ℕ → (ℕ → b.State) → ℕ → b.State)
    (acts : (t : ℕ) (bs : ℕ → b.State) (k : ℕ) → l.Later (bs k) (interference t bs k)) (n : ℕ) where
  -- The thread's row holds the empty state of an earlier, empty state of backend k.
  abbrev pub Seen : DistributedQueue b → ℕ → Type 0
  Seen q k = (s : b.State) × l.IsEmpty s × (b.empty_state s ≡ q.tails k) × l.Later s (q.backends k)

  -- All backends go on in time.
  abbrev pub Onward : DistributedQueue b → DistributedQueue b → Type 0
  Onward q q' = (k : ℕ) → l.Later (q.backends k) (q'.backends k)

  pub tick-Onward : (q : DistributedQueue b) → Onward q (tick b interference n q)
  unfolding tick
  tick-Onward q k = acts q.clock q.backends k

  pub tick-tails : (q : DistributedQueue b) → (tick b interference n q).tails ≡ q.tails
  unfolding tick
  tick-tails q = refl

  try_one-Onward : (i : ℕ) (q : DistributedQueue b) → Onward q (try_one b interference n i q).1
  unfolding try_one
  try_one-Onward i q k = elim (ℕ_discrete i k) [
    | yes e ↦
        subst
          (λ j.
            l.Later (q.backends j)
              (update q.backends i (b.get_return_empty_state (q.backends i)).1.1 j))
          e
          (rw (update_self q.backends i (b.get_return_empty_state (q.backends i)).1.1)
            (l.later_get (q.backends i)))
    | no ne ↦
        rw (update_ne q.backends i (b.get_return_empty_state (q.backends i)).1.1 k ne)
          (l.later_refl (q.backends k))
  ]

  -- Finding nothing at i makes i seen, and leaves what was seen.
  try_one-Seen :
      (i k : ℕ) (q : DistributedQueue b)
      → (try_one b interference n i q).0 ≡ none
      → (i ≡ k) ⊎ Seen q k
      → Seen (try_one b interference n i q).1 k
  unfolding try_one
  try_one-Seen i k q e h = elim (ℕ_discrete i k) [
    | yes same ↦ subst (λ j. Seen (try_one b interference n i q).1 j) same here
    | no ne ↦ elim h [
      | inl same ↦ absurd (ne same)
      | inr seen ↦ (
        seen.0,
        seen.1,
        seen.2 ∙ sym (update_ne q.tails i (b.get_return_empty_state (q.backends i)).1.0 k ne),
        l.later_trans seen.3 (try_one-Onward i q k),
      )
    ]
  ]
    where
      here : Seen (try_one b interference n i q).1 i
      here =
          let none_here = l.get_none (q.backends i) e in
          (
            q.backends i,
            none_here.0,
            sym none_here.1
                ∙ sym (update_self q.tails i (b.get_return_empty_state (q.backends i)).1.0),
            try_one-Onward i q i,
          )

  tick-Seen : (k : ℕ) (q : DistributedQueue b) → Seen q k → Seen (tick b interference n q) k
  unfolding tick
  tick-Seen k q seen = (seen.0, seen.1, seen.2, l.later_trans seen.3 (tick-Onward q k))

  -- The state after one access of the first loop.
  abbrev tried : ℕ → DistributedQueue b → Option ℕ × DistributedQueue b
  tried index q = try_one b interference n index (tick b interference n q)

  try_all-none :
      (start i left : ℕ) (q : DistributedQueue b)
      → (tried ((start + i) % n) q).0 ≡ none
      → try_all b interference n start i (suc left) q
        ≡ try_all b interference n start (suc i) left (tried ((start + i) % n) q).1
  unfolding try_all
  try_all-none start i left q e = rw (e, try_all) refl

  try_all-some :
      (start i left x : ℕ) (q : DistributedQueue b)
      → (tried ((start + i) % n) q).0 ≡ some x
      → try_all b interference n start i (suc left) q ≡ (some x, (tried ((start + i) % n) q).1)
  unfolding try_all
  try_all-some start i left x q e = rw (e, try_all) refl

  -- After a first loop that finds nothing, all places from i on are seen, and what was seen before.
  pub try_all-Seen :
      (start i left k : ℕ) (q : DistributedQueue b)
      → (try_all b interference n start i left q).0 ≡ none
      → Seen q k ⊎ ((j : ℕ) × (i ≤ j) × (j < i + left) × ((start + j) % n ≡ k))
      → Seen (try_all b interference n start i left q).1 k
  unfolding try_all
  try_all-Seen start i zero k q e h = elim h [
    | inl seen ↦ seen
    | inr place ↦ absurd (omega (arith, place.1, place.2))
  ]
  try_all-Seen start i (suc left) k q e h = elim (Option-cases (tried ((start + i) % n) q).0) [
    | inl nothing ↦
        let step = try_all-none start i left q nothing in
        rw step (
          try_all-Seen start (suc i) left k (tried ((start + i) % n) q).1
            (sym (ap (λ r. r.0) step) ∙ e) (seen_or_later nothing h))
    | inr found ↦
        absurd (none-some (sym e ∙ ap (λ r. r.0) (try_all-some start i left found.0 q found.1)))
  ]
    where
      seen_or_later :
          (tried ((start + i) % n) q).0 ≡ none
          → Seen q k ⊎ ((j : ℕ) × (i ≤ j) × (j < i + suc left) × ((start + j) % n ≡ k))
          → Seen (tried ((start + i) % n) q).1 k
            ⊎ ((j : ℕ) × (suc i ≤ j) × (j < suc i + left) × ((start + j) % n ≡ k))
      seen_or_later nothing (inl seen) = inl (
          try_one-Seen ((start + i) % n) k (tick b interference n q) nothing
            (inr (tick-Seen k q seen)))
      seen_or_later nothing (inr place) = elim (ℕ_discrete i place.0) [
        | yes same ↦ inl (
            try_one-Seen ((start + i) % n) k (tick b interference n q) nothing
              (inl (ap (λ j. (start + j) % n) same ∙ place.3)))
        | no ne ↦ inr (place.0, omega (arith, place.1), omega (arith, place.2), place.3)
      ]

  pub try_all-Onward :
      (start i left : ℕ) (q : DistributedQueue b)
      → Onward q (try_all b interference n start i left q).1
  unfolding try_all
  try_all-Onward start i zero q k = l.later_refl (q.backends k)
  try_all-Onward start i (suc left) q k =
      let one : l.Later (q.backends k) ((tried ((start + i) % n) q).1.backends k) =
        l.later_trans (tick-Onward q k)
          (try_one-Onward ((start + i) % n) (tick b interference n q) k) in
      elim (Option-cases (tried ((start + i) % n) q).0) [
        | inl nothing ↦
            rw (try_all-none start i left q nothing) (
              l.later_trans one (try_all-Onward start (suc i) left (tried ((start + i) % n) q).1 k))
        | inr found ↦ rw (try_all-some start i left found.0 q found.1) one
      ]
