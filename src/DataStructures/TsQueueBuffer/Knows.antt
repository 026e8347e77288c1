-- ===== src/DataStructures/TsQueueBuffer/Knows.antt =====
-- What a pass knows of the buffers when no other thread acts.
use scal.Prelude.{
  ℕ, zero, suc, ◌+◌, ◌%◌, ◌≤◌, ◌<◌, ◌≡◌, true, false, none, some, arith, refl, sym, ap, ◌∙◌, subst,
  ℕ_discrete, some-inj, some-none, false-true, same, Bool-cases, inl, inr, ◌⊎◌,
}
use scal.DataStructures.TsTimestamp.{Stamp}
use scal.DataStructures.TsBuffer.{Buffer, oldest, is_empty}
use scal.DataStructures.TsQueueBuffer.{
  Timestamping, TsQueueBuffer, Choice, Pass, tick, compare_item, visit, scan,
}

-- Among the stamps that are proper, to be later is a strict order.
pub record IsOrder (ts : Timestamping) (IsProper : Stamp → Type 0) : Type 0 where
  pub irreflexive : (s : Stamp) → IsProper s → ts.is_later s s ≡ false
  pub transitive :
      (s t u : Stamp)
      → IsProper s
      → IsProper t
      → IsProper u
      → ts.is_later s t ≡ true
      → ts.is_later t u ≡ true
      → ts.is_later s u ≡ true
  pub top : IsProper ts.top

-- The oldest item of a buffer, and its stamp.
abbrev pub first_item : Buffer → ℕ
first_item b = oldest b b.remove

abbrev pub first_stamp : Buffer → Stamp
first_stamp b = (b.heap (first_item b)).timestamp

-- No other thread acts.
abbrev pub quiet : ℕ → (ℕ → Buffer) → ℕ → Buffer
quiet t bs = bs

-- The candidate is the oldest item of its buffer, with the stamp of the pass.
pub record IsCandidate (bs : ℕ → Buffer) (p : Pass) (c : Choice) : Type 0 where
  pub filled : is_empty (bs c.buffer_index) ≡ false
  pub first : c.result ≡ first_item (bs c.buffer_index)
  pub word : c.old_remove ≡ (bs c.buffer_index).remove
  pub stamped : p.timestamp ≡ first_stamp (bs c.buffer_index)

-- No item at the front of buffer k is older than the stamp.
abbrev pub NoneOlder : Timestamping → (ℕ → Buffer) → Stamp → ℕ → Type 0
NoneOlder ts bs stamp k = is_empty (bs k) ≡ false → ts.is_later stamp (first_stamp (bs k)) ≡ false

-- The choice of a visit to a buffer.
abbrev pub first_choice : (ℕ → Buffer) → ℕ → Choice
first_choice bs index = record {
  buffer_index = index;
  result = first_item (bs index);
  old_remove = (bs index).remove;
}

module _ (ts : Timestamping) (n index : ℕ) (p : Pass) (q : TsQueueBuffer) where
  visit-filled :
      is_empty (q.buffers index) ≡ false
      → visit ts quiet n index p q ≡ (
        compare_item ts quiet n p (first_choice q.buffers index) (first_stamp (q.buffers index)),
        record q { clock = suc (suc (suc (suc q.clock))) },
      )
  unfolding visit tick
  visit-filled e = rw e refl

  -- At an empty buffer neither the candidate nor its stamp changes.
  visit-unfilled :
      is_empty (q.buffers index) ≡ true
      → ((visit ts quiet n index p q).0.choice ≡ p.choice)
        × ((visit ts quiet n index p q).0.timestamp ≡ p.timestamp)
        × ((visit ts quiet n index p q).1.buffers ≡ q.buffers)
  unfolding visit tick
  visit-unfilled e = elim (Bool-cases (same (q.checks index) (q.buffers index).remove)) [
    | inl h ↦ rw (e, h) (refl, refl, refl)
    | inr h ↦ rw (e, h) (refl, refl, refl)
  ]

module _ (ts : Timestamping) (IsProper : Stamp → Type 0) (order : IsOrder ts IsProper) (n : ℕ)
    (bs : ℕ → Buffer) (proper : (k : ℕ) → IsProper (first_stamp (bs k))) where
  -- What a pass knows of the buffers: its candidate, and of the visited ones that none is older.
  pub record Knows (p : Pass) (visited : ℕ → Type 0) : Type 0 where
    pub is_proper : IsProper p.timestamp
    pub candidate : (c : Choice) → p.choice ≡ some c → IsCandidate bs p c
    pub none_yet : p.choice ≡ none → p.timestamp ≡ ts.top
    pub none_older : (k : ℕ) → visited k → NoneOlder ts bs p.timestamp k

  knows-compare :
      (index : ℕ) (p : Pass) (visited : ℕ → Type 0)
      → is_empty (bs index) ≡ false
      → Knows p visited
      → Knows
          (compare_item ts quiet n p (first_choice bs index) (first_stamp (bs index)))
          (λ k. visited k ⊎ (index ≡ k))
  knows-compare index p visited e h =
      elim (Bool-cases (ts.is_later p.timestamp (first_stamp (bs index)))) [
        | inl later ↦ rw later (record {
          is_proper = proper index;
          candidate = λ c chosen.
              subst
                (IsCandidate bs (record {
                  empty = false;
                  timestamp = first_stamp (bs index);
                  choice = some (first_choice bs index);
                }))
                (some-inj chosen)
                (record { filled = e; first = refl; word = refl; stamped = refl });
          none_yet = λ nothing. absurd (some-none nothing);
          none_older = λ k v full. elim v [
            | inl before ↦
                elim (Bool-cases (ts.is_later (first_stamp (bs index)) (first_stamp (bs k)))) [
                  | inr fine ↦ fine
                  | inl older ↦ absurd (
                      false-true (
                        sym (h.none_older k before full)
                        ∙ order.transitive p.timestamp (first_stamp (bs index)) (first_stamp (bs k))
                            h.is_proper (proper index) (proper k) later older))
                ]
            | inr here ↦
                subst (λ k. ts.is_later (first_stamp (bs index)) (first_stamp (bs k)) ≡ false) here
                  (order.irreflexive (first_stamp (bs index)) (proper index))
          ];
        })
        | inr other ↦ rw other (record {
          is_proper = h.is_proper;
          candidate = λ c chosen. record {
            filled = (h.candidate c chosen).filled;
            first = (h.candidate c chosen).first;
            word = (h.candidate c chosen).word;
            stamped = (h.candidate c chosen).stamped;
          };
          none_yet = h.none_yet;
          none_older = λ k v full. elim v [
            | inl before ↦ h.none_older k before full
            | inr here ↦
                subst (λ k. ts.is_later p.timestamp (first_stamp (bs k)) ≡ false) here other
          ];
        })
      ]

  knows-skip :
      (index : ℕ) (p p' : Pass) (visited : ℕ → Type 0)
      → is_empty (bs index) ≡ true
      → p'.choice ≡ p.choice
      → p'.timestamp ≡ p.timestamp
      → Knows p visited
      → Knows p' (λ k. visited k ⊎ (index ≡ k))
  knows-skip index p p' visited e c t h = record {
    is_proper = rw t h.is_proper;
    candidate = λ d chosen.
        let old = h.candidate d (sym c ∙ chosen) in
        record {
          filled = old.filled;
          first = old.first;
          word = old.word;
          stamped = t ∙ old.stamped;
        };
    none_yet = λ nothing. t ∙ h.none_yet (sym c ∙ nothing);
    none_older = λ k v full. elim v [
      | inl before ↦ rw t (h.none_older k before full)
      | inr here ↦ absurd (false-true (sym full ∙ subst (λ k. is_empty (bs k) ≡ true) here e))
    ];
  }

  knows-visit :
      (index : ℕ) (p : Pass) (q : TsQueueBuffer) (visited : ℕ → Type 0)
      → q.buffers ≡ bs
      → Knows p visited
      → Knows (visit ts quiet n index p q).0 (λ k. visited k ⊎ (index ≡ k))
        × ((visit ts quiet n index p q).1.buffers ≡ bs)
  knows-visit index p q visited at h = elim (Bool-cases (is_empty (bs index))) [
    | inr full ↦
        rw (visit-filled ts n index p q (same_test ∙ full), at)
          (knows-compare index p visited full h, refl)
    | inl bare ↦
        let (c, t, b) = visit-unfilled ts n index p q (same_test ∙ bare) in
        (knows-skip index p (visit ts quiet n index p q).0 visited bare c t h, b ∙ at)
  ]
    where
      same_test : is_empty (q.buffers index) ≡ is_empty (bs index)
      same_test = ap (λ f. is_empty (f index)) at

  knows-weaken :
      (p : Pass) (visited visited' : ℕ → Type 0)
      → ((k : ℕ) → visited' k → visited k)
      → Knows p visited
      → Knows p visited'
  knows-weaken p visited visited' f h = record {
    is_proper = h.is_proper;
    candidate = h.candidate;
    none_yet = h.none_yet;
    none_older = λ k v. h.none_older k (f k v);
  }

  -- The places from `from` up to `to` of a pass that begins at start.
  abbrev Between : ℕ → ℕ → ℕ → ℕ → Type 0
  Between start from to k = (j : ℕ) × (from ≤ j) × (j < to) × ((start + j) % n ≡ k)

  pub knows-scan :
      (start i left : ℕ) (p : Pass) (q : TsQueueBuffer)
      → q.buffers ≡ bs
      → Knows p (Between start 0 i)
      → Knows (scan ts quiet n start i left p q).0 (Between start 0 (i + left))
        × ((scan ts quiet n start i left p q).1.buffers ≡ bs)
  unfolding scan
  knows-scan start i zero p q at h = (
    knows-weaken p (Between start 0 i) (Between start 0 (i + 0))
        (λ k b. (b.0, b.1, omega (arith, b.2), b.3)) h,
    at,
  )
  knows-scan start i (suc left) p q at h =
      let index = (start + i) % n in
      let (h', at') = knows-visit index p q (Between start 0 i) at h in
      let next = visit ts quiet n index p q in
      let rest = knows-scan start (suc i) left next.0 next.1 at' (
        knows-weaken next.0 (λ k. Between start 0 i k ⊎ (index ≡ k)) (Between start 0 (suc i))
          (last_place start i) h') in
      (
        knows-weaken (scan ts quiet n start (suc i) left next.0 next.1).0
            (Between start 0 (suc i + left)) (Between start 0 (i + suc left))
            (λ k b. (b.0, b.1, omega (arith, b.2), b.3)) rest.0,
        rest.1,
      )
    where
      last_place :
          (start i k : ℕ) → Between start 0 (suc i) k → Between start 0 i k ⊎ ((start + i) % n ≡ k)
      last_place start i k (j, lo, hi, e) = elim (ℕ_discrete j i) [
        | yes here ↦ inr (ap (λ j. (start + j) % n) (sym here) ∙ e)
        | no ne ↦ inl (j, lo, omega arith, e)
      ]
