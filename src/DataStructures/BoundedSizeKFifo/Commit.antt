-- ===== src/DataStructures/BoundedSizeKFifo/Commit.antt =====
-- What `committed` decides about an item that has been put in a slot, whatever other threads have
-- done to head, tail and slots meanwhile.
use scal.Prelude.{
  inl, inr, ℕ, ◌≡◌, ◌<◌, ◌≤◌, ◌⊎◌, Bool, true, false, arith, Cell, same, update, same_iff, next_aba,
  sym, ap, ◌∙◌, refl, Bool-cases, ◌==◌, ==_iff, false-true,
}
use scal.DataStructures.BoundedSizeKFifo.{
  KFifo, committed, emptied, take_back, in_valid_region, not_in_valid_region,
}

-- What the two tests of regions take for outside of the queue: while the tail's word is not below the
-- head's, a segment up to the head's, if it is before the tail's, or behind the tail's.
abbrev pub Outside : KFifo → ℕ → Type 0
Outside q old =
    (q.head.value ≤ q.tail.value)
    × (((old ≤ q.head.value) × (old < q.tail.value)) ⊎ (q.tail.value < old))

-- What they take for the head's segment: the segments behind the tail's up to the head's, or the only
-- one that there is.
abbrev pub Ahead : KFifo → ℕ → Type 0
Ahead q old =
    (old ≤ q.head.value)
    × ((q.tail.value < old) ⊎ ((old ≡ q.head.value) × (q.head.value ≡ q.tail.value)))

-- The head's counter moves on, so that an exchange that expects the old head fails.
abbrev pub with_head : KFifo → KFifo
with_head q = record q { head = record { value = q.head.value; aba = next_aba q.head.aba } }

-- The item stays: a commit that succeeds writes no slot, and the head's counter only if the slot still
-- has the item and the segment is taken for the head's. If the slot still holds the word, the segment
-- is not taken for outside.
abbrev pub Stays : KFifo → ℕ → Cell → ℕ → Bool × KFifo → Type 0
Stays q old c i (b, q') =
    (b ≡ true)
    × (q.queue i ≡ c → ¬ Outside q old)
    × ((q' ≡ q) ⊎ (((q.queue i).value ≡ c.value) × Ahead q old × (q' ≡ with_head q)))

-- The item is taken back: the slot still held the word, and is empty now; nothing else changes.
abbrev pub TakenBack : KFifo → ℕ → Cell → ℕ → Bool × KFifo → Type 0
TakenBack q old c i (b, q') =
    (b ≡ false)
    × (q.queue i ≡ c)
    × Outside q old
    × (q' ≡ record q { queue = update q.queue i (emptied c) })

abbrev pub Commits : KFifo → ℕ → Cell → ℕ → Bool × KFifo → Type 0
Commits q old c i r = Stays q old c i r ⊎ TakenBack q old c i r

valid-inside :
    (q : KFifo) (old : ℕ) → in_valid_region old q.tail.value q.head.value ≡ true → ¬ Outside q old
unfolding in_valid_region
valid-inside q old e out = ground (arith, e, out)

invalid-Outside :
    (q : KFifo) (old : ℕ)
    → in_valid_region old q.tail.value q.head.value ≡ false
    → not_in_valid_region old q.tail.value q.head.value ≡ true
    → Outside q old
unfolding in_valid_region not_in_valid_region
invalid-Outside q old e f = ground (arith, e, f)

neither-Ahead :
    (q : KFifo) (old : ℕ)
    → in_valid_region old q.tail.value q.head.value ≡ false
    → not_in_valid_region old q.tail.value q.head.value ≡ false
    → Ahead q old × (¬ Outside q old)
unfolding in_valid_region not_in_valid_region
neither-Ahead q old e f = (ground (arith, e, f), λ out. ground (arith, e, f, out))

take_back-Commits :
    (q : KFifo) (old : ℕ) (c : Cell) (i : ℕ) → Outside q old → Commits q old c i (take_back q c i)
take_back-Commits q old c i out = elim (Bool-cases (same (q.queue i) c)) [
  | inl there ↦ rw there (inr (refl, (same_iff (q.queue i) c).0 there, out, refl))
  | inr gone ↦
      rw gone
        (inl (refl, λ e. absurd (false-true (sym gone ∙ (same_iff (q.queue i) c).1 e)), inl refl))
]

-- Every commit of an item to the segment `tail_old` either succeeds and leaves all slots alone, or
-- fails and has taken the item back out of its slot. It fails only if the slot still held its word and
-- the tail's word is not below the head's, with the segment up to the head's and before the tail's,
-- or behind the tail's; then it can succeed only if the slot holds another word. Once the tail's
-- word has wrapped around below the head's it always succeeds, also for a segment behind the tail's
-- and before the head's. It writes the head's counter only for such a segment, or the head's.
pub committed-outcome :
    (q : KFifo) (tail_old : ℕ) (c : Cell) (i : ℕ)
    → Commits q tail_old c i (committed q tail_old c i)
unfolding committed
committed-outcome q tail_old c i = elim (Bool-cases ((q.queue i).value == c.value)) [
  | inr gone ↦
      rw (gone, committed)
        (inl (
          refl,
          λ e.
              absurd
                (false-true (sym gone ∙ (==_iff (q.queue i).value c.value).1 (ap Cell.value e))),
          inl refl,
        ))
  | inl there ↦ elim (Bool-cases (in_valid_region tail_old q.tail.value q.head.value)) [
    | inl valid ↦
        rw (there, valid, committed) (inl (refl, λ e. valid-inside q tail_old valid, inl refl))
    | inr e ↦ elim (Bool-cases (not_in_valid_region tail_old q.tail.value q.head.value)) [
      | inl invalid ↦
          rw (there, e, invalid, committed)
            (take_back-Commits q tail_old c i (invalid-Outside q tail_old e invalid))
      | inr f ↦
          let (here, inside) = neither-Ahead q tail_old e f in
          rw (there, e, f, (same_iff q.head q.head).1 refl, committed)
            (inl (refl, λ k. inside, inr ((==_iff (q.queue i).value c.value).0 there, here, refl)))
    ]
  ]
]

-- If head and tail have not moved since `enqueue` read the tail, the commit succeeds.
pub committed_quiet : (q : KFifo) (c : Cell) (i : ℕ) → (committed q q.tail.value c i).0 ≡ true
unfolding committed same
committed_quiet q c i = ground arith

pub queue-committed_quiet :
    (q : KFifo) (c : Cell) (i : ℕ) → (committed q q.tail.value c i).1.queue ≡ q.queue
queue-committed_quiet q c i = elim (committed-outcome q q.tail.value c i) [
  | inl s ↦ elim (s.2) [ inl e ↦ ap (λ r. r.queue) e | inr (v, h, e) ↦ ap (λ r. r.queue) e ]
  | inr t ↦ cc (committed_quiet q c i, t.0)
]
