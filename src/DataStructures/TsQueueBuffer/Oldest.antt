-- ===== src/DataStructures/TsQueueBuffer/Oldest.antt =====
-- What a removal takes when no other thread acts.
use scal.Prelude.{
  ℕ, ◌+◌, ◌%◌, ◌≤◌, ◌<◌, ◌≡◌, true, false, some, arith, refl, sym, ap, ◌∙◌, subst, update,
  update_self, none-some, same_iff, Bool-cases, Option-cases, inl, inr, round_at, round_at_lt,
  round_at_lem, ◌⊎◌,
}
use scal.DataStructures.TsTimestamp.{Stamp}
use scal.DataStructures.TsBuffer.{Buffer, removed_to, is_empty}
use scal.DataStructures.TsQueueBuffer.{
  Timestamping, TsQueueBuffer, Choice, Pass, start_pass, tick, scan, take, try_remove_right,
}
use scal.DataStructures.TsQueueBuffer.Knows.{
  IsOrder, first_item, first_stamp, quiet, NoneOlder, Knows, knows-scan,
}

-- The oldest item of buffer k is removed; it is x, it has its stamp since the start of the removal,
-- and no buffer has an older one.
pub record Removed (ts : Timestamping) (n : ℕ) (start_time : Stamp) (bs : ℕ → Buffer) (x : ℕ)
    (bs' : ℕ → Buffer) : Type 0 where
  pub index : ℕ
  pub filled : is_empty (bs index) ≡ false
  pub element : x ≡ ((bs index).heap (first_item (bs index))).data_
  pub in_time : ts.is_later (first_stamp (bs index)) start_time ≡ false
  pub none_older : (k : ℕ) → k < n → NoneOlder ts bs (first_stamp (bs index)) k
  pub after :
      bs'
      ≡ update bs index
          (record (bs index) { remove = removed_to (first_item (bs index)) (bs index).remove })

-- Nothing is removed, since no buffer has an item at its front that is stamped, or the oldest of
-- these was stamped after the removal began.
pub record Kept (ts : Timestamping) (n : ℕ) (start_time : Stamp) (bs : ℕ → Buffer) (x : ℕ)
    (bs' : ℕ → Buffer) : Type 0 where
  pub element : x ≡ 0
  pub after : bs' ≡ bs
  pub reason :
      ((k : ℕ) → k < n → NoneOlder ts bs ts.top k)
      ⊎ ((index : ℕ) × (is_empty (bs index) ≡ false)
          × (ts.is_later (first_stamp (bs index)) start_time ≡ true)
          × ((k : ℕ) → k < n → NoneOlder ts bs (first_stamp (bs index)) k))

module _ (ts : Timestamping) (n : ℕ) (c : Choice) (q : TsQueueBuffer) where
  take-quiet :
      (q.buffers c.buffer_index).remove ≡ c.old_remove
      → ((take ts quiet n false c q).0 ≡ some ((q.buffers c.buffer_index).heap c.result).data_)
        × ((take ts quiet n false c q).1.buffers
            ≡ update q.buffers c.buffer_index
                (record (q.buffers c.buffer_index) { remove = removed_to c.result c.old_remove }))
  unfolding take tick
  take-quiet e = rw ((same_iff (q.buffers c.buffer_index).remove c.old_remove).1 e) (
    rw
        (update_self q.buffers c.buffer_index
          (record (q.buffers c.buffer_index) { remove = removed_to c.result c.old_remove }))
        refl,
    refl,
  )

-- With proper stamps, which `is_later` orders strictly, and no other thread acting: a removal takes
-- the oldest item of some buffer, and no buffer has an older one at its front; it takes nothing, and
-- leaves the buffers alone, only if no front item is stamped yet, or the oldest that was found
-- was stamped after the removal began.
pub try_remove_right-oldest :
    (ts : Timestamping) (IsProper : Stamp → Type 0) (n start : ℕ) (start_time : Stamp)
    (q : TsQueueBuffer)
    → IsOrder ts IsProper
    → ((k : ℕ) → IsProper (first_stamp (q.buffers k)))
    → let (r, q') = try_remove_right ts quiet n start start_time false q in
      Removed ts n start_time q.buffers r.1 q'.buffers
      ⊎ Kept ts n start_time q.buffers r.1 q'.buffers
unfolding try_remove_right
try_remove_right-oldest ts IsProper n start start_time q order proper =
    elim (Option-cases pass.choice) [
      | inl nothing ↦
          rw (nothing, try_remove_right)
            (inr (record {
              element = refl;
              after = scanned.1;
              reason = inl (λ k lt.
                  subst (λ t. NoneOlder ts q.buffers t k) (knows.none_yet nothing)
                    (none_older k lt));
            }))
      | inr (c, chosen) ↦
          let candidate = knows.candidate c chosen in
          elim (Bool-cases (ts.is_later pass.timestamp start_time)) [
            | inl late ↦
                rw (chosen, late, try_remove_right)
                  (inr (record {
                    element = refl;
                    after = scanned.1;
                    reason = inr (
                      c.buffer_index,
                      candidate.filled,
                      subst (λ t. ts.is_later t start_time ≡ true) candidate.stamped late,
                      λ k lt.
                          subst (λ t. NoneOlder ts q.buffers t k) candidate.stamped
                            (none_older k lt),
                    );
                  }))
            | inr in_time ↦
                let taken =
                  take-quiet ts n c (scan ts quiet n start 0 n (start_pass ts) q).1
                    (ap (λ f. (f c.buffer_index).remove) scanned.1 ∙ sym candidate.word) in
                rw (chosen, in_time, taken.0, try_remove_right)
                  (inl (record {
                    index = c.buffer_index;
                    filled = candidate.filled;
                    element = rw (scanned.1, candidate.first) refl;
                    in_time =
                        subst (λ t. ts.is_later t start_time ≡ false) candidate.stamped in_time;
                    none_older = λ k lt.
                        subst (λ t. NoneOlder ts q.buffers t k) candidate.stamped (none_older k lt);
                    after = taken.1 ∙ rw (scanned.1, candidate.first, candidate.word) refl;
                  }))
          ]
    ]
  where
    pass : Pass
    pass = (scan ts quiet n start 0 n (start_pass ts) q).0

    before :
        Knows ts IsProper order n q.buffers proper
          (start_pass ts)
          (λ k. (j : ℕ) × (0 ≤ j) × (j < 0) × ((start + j) % n ≡ k))
    before = record {
      is_proper = order.top;
      candidate = λ c h. absurd (none-some h);
      none_yet = λ h. refl;
      none_older = λ k v. absurd (omega (arith, v.2));
    }

    scanned :
        Knows ts IsProper order n q.buffers proper pass
          (λ k. (j : ℕ) × (0 ≤ j) × (j < 0 + n) × ((start + j) % n ≡ k))
        × ((scan ts quiet n start 0 n (start_pass ts) q).1.buffers ≡ q.buffers)
    scanned =
        knows-scan ts IsProper order n q.buffers proper start 0 n (start_pass ts) q refl before

    knows :
        Knows ts IsProper order n q.buffers proper pass
          (λ k. (j : ℕ) × (0 ≤ j) × (j < 0 + n) × ((start + j) % n ≡ k))
    knows = scanned.0

    none_older : (k : ℕ) → k < n → NoneOlder ts q.buffers pass.timestamp k
    none_older k lt = knows.none_older k (
      round_at n start k,
      omega arith,
      omega (arith, round_at_lt n start k (omega arith)),
      round_at_lem n start k lt,
    )
