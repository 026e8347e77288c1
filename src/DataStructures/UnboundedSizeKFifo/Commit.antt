-- ===== src/DataStructures/UnboundedSizeKFifo/Commit.antt =====
-- What `committed` decides, in any state.
use scal.Prelude.{
  ℕ, ◌≡◌, ◌⊎◌, Bool, true, false, ◌==◌, refl, sym, ◌∙◌, Bool-cases, inl, inr, Cell, same, same_iff,
  false-true,
}
use scal.DataStructures.UnboundedSizeKFifo.{UnboundedSizeKFifo, zero_cell, with_item, committed}

pub same_self : (c : Cell) → same c c ≡ true
same_self c = (same_iff c c).1 refl

-- The queues agree but for the counter of the head.
pub record Agrees (q q' : UnboundedSizeKFifo) : Type 0 where
  pub segments : q'.segments ≡ q.segments
  pub allocated : q'.allocated ≡ q.allocated
  pub head : q'.head.value ≡ q.head.value
  pub tail : q'.tail ≡ q.tail
  pub k : q'.k ≡ q.k

pub Agrees-refl : (q : UnboundedSizeKFifo) → Agrees q q
Agrees-refl q = record { segments = refl; allocated = refl; head = refl; tail = refl; k = refl }

-- The commit has succeeded, and no segment has changed. If the item was still in its slot, the
-- segment was not marked as deleted.
abbrev pub Stays :
    (q : UnboundedSizeKFifo) → (segment index : ℕ) → Cell → Bool × UnboundedSizeKFifo → Type 0
Stays q segment index c (done, q') =
    (done ≡ true)
    × Agrees q q'
    × ((q.segments segment).items index ≡ c → (q.segments segment).deleted ≡ false)

-- The item is taken back: its slot still held it in a deleted segment, and is free now.
abbrev pub TakenBack :
    (q : UnboundedSizeKFifo) → (segment index : ℕ) → Cell → Bool × UnboundedSizeKFifo → Type 0
TakenBack q segment index c (done, q') =
    (done ≡ false)
    × ((q.segments segment).items index ≡ c)
    × ((q.segments segment).deleted ≡ true)
    × (q' ≡ with_item q segment index zero_cell)

-- In any state, whatever other threads have done to the queue since: a commit either succeeds and
-- leaves all segments alone, and then the item was taken already or its segment is not deleted; or it
-- fails, since the segment is deleted, and has taken the item back out of its slot.
pub uskfifo_commit :
    (tail_old new_item : Cell) (index : ℕ) (q : UnboundedSizeKFifo)
    → Stays q tail_old.value index new_item (committed tail_old new_item index q)
      ⊎ TakenBack q tail_old.value index new_item (committed tail_old new_item index q)
unfolding committed
uskfifo_commit tail_old new_item index q =
    let s = q.segments tail_old.value in
    elim (Bool-cases (same (s.items index) new_item)) [
      | inr gone ↦ rw gone (
          inl (
            refl,
            Agrees-refl q,
            λ there. absurd (false-true (sym gone ∙ (same_iff (s.items index) new_item).1 there)),
          ))
      | inl there ↦ elim (Bool-cases s.deleted) [
        | inl deleted ↦
            rw (there, deleted)
              (inr (refl, (same_iff (s.items index) new_item).0 there, refl, refl))
        | inr live ↦ elim (Bool-cases (tail_old.value == q.head.value)) [
          | inl head ↦
              rw (there, live, head, same_self q.head)
                (inl (
                  refl,
                  record { segments = refl; allocated = refl; head = refl; tail = refl; k = refl },
                  λ e. refl,
                ))
          | inr other ↦ rw (there, live, other) (inl (refl, Agrees-refl q, λ e. refl))
        ]
      ]
    ]

-- In a segment that is not deleted the commit succeeds.
pub committed_live :
    (tail_old new_item : Cell) (index : ℕ) (q : UnboundedSizeKFifo)
    → (q.segments tail_old.value).deleted ≡ false
    → ((committed tail_old new_item index q).0 ≡ true)
      × Agrees q (committed tail_old new_item index q).1
committed_live tail_old new_item index q live = elim (uskfifo_commit tail_old new_item index q) [
  | inl stays ↦ (stays.0, stays.1)
  | inr back ↦ absurd (false-true (sym live ∙ back.2))
]
