-- ===== src/DataStructures/DtsQueue/Removal.antt =====
-- What a dequeue removes when no other thread acts and no exchange fails without a reason.
use scal.Prelude.{
  ℕ, ◌+◌, ◌<◌, ◌≡◌, ◌≢◌, ◌⊎◌, false, some, List, ◌∷◌, arith, refl, sym, ap, ◌∙◌, subst, none-some,
  ◌==◌, Bool-cases, ==_iff, Option-cases, inl, inr, round_at, round_at_lt, round_at_lem,
}
use scal.DataStructures.TsTimestamp.{Stamp, uint64_max}
use scal.DataStructures.TsBuffer.{Buffer, is_empty}
use scal.DataStructures.TsQueueBuffer.Knows.{first_stamp, quiet}
use scal.DataStructures.DtsQueue.{
  DtsQueue, Locals, start_locals, scan_buffers, try_remove_oldest, dequeue,
}
use scal.DataStructures.DtsQueue.Quiet.{first_element, remove_item-quiet}
use scal.DataStructures.DtsQueue.Sees.{NotOlder, RemovesFirst, Visited}
use scal.DataStructures.DtsQueue.Scan.{TakesAtOnce, Ends, scan_buffers-Ends}

-- The item that is removed is as old as the first item of any buffer.
pub record RemovesOldest (n : ℕ) (bs : ℕ → Buffer) (x : ℕ) (bs' : ℕ → Buffer) : Type 0 where
  pub index : ℕ
  pub removes : RemovesFirst n bs index x bs'
  pub none_older : (k : ℕ) → k < n → NotOlder bs (first_stamp (bs index)) k

-- The removal of an item that is not later than the dequeue, or is the oldest of all.
abbrev pub Removes : (n : ℕ) → Stamp → (ℕ → Buffer) → ℕ → (ℕ → Buffer) → Type 0
Removes n dts bs x bs' = TakesAtOnce n dts bs x bs' ⊎ RemovesOldest n bs x bs'

-- A buffer that has an item with a stamp.
pub record HasItem (n : ℕ) (bs : ℕ → Buffer) : Type 0 where
  pub index : ℕ
  pub in_range : index < n
  pub filled : is_empty (bs index) ≡ false
  pub stamped : (first_stamp (bs index)).first < uint64_max

module _ (n : ℕ) (dts : Stamp) (start : ℕ) (q : DtsQueue) (item : HasItem n q.buffers) where
  all-Visited : (k : ℕ) → k < n → Visited n start (0 + n) k
  all-Visited k lt = (
    round_at n start k,
    omega (arith, round_at_lt n start k (omega arith)),
    round_at_lem n start k lt,
  )

  try_remove_oldest-Removes :
      Removes n dts q.buffers
        (try_remove_oldest quiet (λ _. false) n dts start q).0
        (try_remove_oldest quiet (λ _. false) n dts start q).1.buffers
  unfolding try_remove_oldest
  try_remove_oldest-Removes = elim ends [
    | inl (x, taken, at_once) ↦ rw (taken, try_remove_oldest) (inl at_once)
    | inr (nothing, sees, same_buffers) ↦ elim (Option-cases pass.found) [
      | inl none_found ↦ absurd (
          omega (
            arith,
            item.stamped,
            sees.not_older item.index (all-Visited item.index item.in_range) item.filled,
            sees.none_yet none_found,
          ))
      | inr (c, found) ↦
          let first = sees.first c found in
          let removed =
            remove_item-quiet n c.buffer_index c.result c.old_remove after
              (ap (λ f. (f c.buffer_index).remove) same_buffers ∙ sym first.word) in
          rw (nothing, found, removed.0, try_remove_oldest)
            (inr (record {
              index = c.buffer_index;
              removes = record {
                in_range = first.in_range;
                filled = first.filled;
                element = rw (same_buffers, first.first) refl;
                after = removed.1 ∙ rw (same_buffers, first.first, first.word) refl;
              };
              none_older = λ k lt.
                  subst (λ t. NotOlder q.buffers t k) first.stamped
                    (sees.not_older k (all-Visited k lt));
            }))
    ]
  ]
    where
      pass : Locals
      pass = (scan_buffers quiet (λ _. false) n dts start 0 n start_locals q).0.1

      after : DtsQueue
      after = (scan_buffers quiet (λ _. false) n dts start 0 n start_locals q).1

      ends :
          Ends n dts q.buffers start
            (0 + n)
            (scan_buffers quiet (λ _. false) n dts start 0 n start_locals q)
      ends =
          scan_buffers-Ends n (omega (arith, item.in_range)) q.buffers dts start 0 n start_locals
            q.clock
            (record {
              first = λ c h. absurd (none-some h);
              none_yet = λ _. refl;
              not_older = λ k v. absurd (omega (arith, v.1));
            })

-- With no other thread acting and no exchange failing without a reason, a dequeue returns in its
-- first round if some buffer has a stamped item and no buffer has an element 0 at its front: the
-- element is the first of a buffer, which alone changes, and its stamp is not later than that of the
-- dequeue, or no buffer has an older one at its front.
pub dequeue-Removes :
    (n : ℕ) (dts : Stamp) (start : ℕ) (starts : List ℕ) (q : DtsQueue)
    → HasItem n q.buffers
    → ((k : ℕ) → k < n → is_empty (q.buffers k) ≡ false → first_element (q.buffers k) ≢ 0)
    → let (r, q') = dequeue quiet (λ _. false) n dts (start ∷ starts) q in
      (x : ℕ) × (r ≡ some x) × Removes n dts q.buffers x q'.buffers
unfolding dequeue
dequeue-Removes n dts start starts q item proper =
    let removes = try_remove_oldest-Removes n dts start q item in
    elim (Bool-cases (element == 0)) [
      | inl is_zero ↦ absurd (not_zero removes ((==_iff element 0).0 is_zero))
      | inr is_element ↦ rw (is_element, dequeue) (element, refl, removes)
    ]
  where
    element : ℕ
    element = (try_remove_oldest quiet (λ _. false) n dts start q).0

    not_zero :
        Removes n dts q.buffers element
          (try_remove_oldest quiet (λ _. false) n dts start q).1.buffers
        → element ≢ 0
    not_zero h e = elim h [
      | inl t ↦ proper t.index t.removes.in_range t.removes.filled (sym t.removes.element ∙ e)
      | inr o ↦ proper o.index o.removes.in_range o.removes.filled (sym o.removes.element ∙ e)
    ]
