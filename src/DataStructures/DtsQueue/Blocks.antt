-- ===== src/DataStructures/DtsQueue/Blocks.antt =====
-- The queue has no emptiness check: a dequeue from empty buffers goes on until another thread acts.
use scal.Prelude.{ℕ, zero, suc, ◌+◌, ◌%◌, ◌<◌, ◌≡◌, Bool, true, none, List, [], ◌∷◌, refl, ap, ◌∙◌}
use native.Mathlib.Nat.{mod-lt}
use scal.DataStructures.TsTimestamp.{Stamp}
use scal.DataStructures.TsBuffer.{Buffer, is_empty}
use scal.DataStructures.TsQueueBuffer.Knows.{quiet}
use scal.DataStructures.DtsQueue.{
  DtsQueue, Locals, start_locals, scan_buffers, try_remove_oldest, dequeue,
}
use scal.DataStructures.DtsQueue.Quiet.{visit_buffer-vacant, scan_buffers-next}

abbrev AllEmpty : ℕ → (ℕ → Buffer) → Type 0
AllEmpty n bs = (k : ℕ) → k < n → is_empty (bs k) ≡ true

module _ (spurious : ℕ → Bool) (n : ℕ) (pos : 0 < n) (dts : Stamp) where
  scan_buffers-vacant :
      (start i left : ℕ) (p : Locals) (q : DtsQueue)
      → AllEmpty n q.buffers
      → ((scan_buffers quiet spurious n dts start i left p q).0 ≡ (none, p))
        × ((scan_buffers quiet spurious n dts start i left p q).1.buffers ≡ q.buffers)
  unfolding scan_buffers
  scan_buffers-vacant start i zero p q h = (refl, refl)
  scan_buffers-vacant start i (suc left) p q h =
      let q' = record q { clock = suc (suc (suc q.clock)) } in
      let seen =
        visit_buffer-vacant spurious n dts ((start + i) % n) p q
          (h ((start + i) % n) (mod-lt (start + i) pos)) in
      rw (scan_buffers-next spurious n dts start i left p q p q' seen)
        (scan_buffers-vacant start (suc i) left p q' h)

  try_remove_oldest-vacant :
      (start : ℕ) (q : DtsQueue)
      → AllEmpty n q.buffers
      → ((try_remove_oldest quiet spurious n dts start q).0 ≡ 0)
        × ((try_remove_oldest quiet spurious n dts start q).1.buffers ≡ q.buffers)
  unfolding try_remove_oldest
  try_remove_oldest-vacant start q h =
      let scanned = scan_buffers-vacant start 0 n start_locals q h in
      rw (ap (λ x. x.0) scanned.0, ap (λ x. x.1.found) scanned.0, try_remove_oldest)
        (refl, scanned.1)

  -- When all of at least one buffers are empty and no other thread acts, a dequeue has not returned
  -- after any number of rounds, and the buffers are as before.
  pub dequeue-blocks :
      (starts : List ℕ) (q : DtsQueue)
      → AllEmpty n q.buffers
      → ((dequeue quiet spurious n dts starts q).0 ≡ none)
        × ((dequeue quiet spurious n dts starts q).1.buffers ≡ q.buffers)
  unfolding dequeue
  dequeue-blocks [] q h = (refl, refl)
  dequeue-blocks (start ∷ starts) q h =
      let here = try_remove_oldest-vacant start q h in
      let q' = (try_remove_oldest quiet spurious n dts start q).1 in
      let rest = dequeue-blocks starts q' (λ k lt. rw here.1 (h k lt)) in
      rw (here.0, dequeue) (rest.0, rest.1 ∙ here.1)
