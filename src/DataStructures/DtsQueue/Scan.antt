-- ===== src/DataStructures/DtsQueue/Scan.antt =====
-- What a loop over all buffers ends with when no other thread acts.
use scal.Prelude.{
  ℕ, zero, suc, ◌+◌, ◌%◌, ◌<◌, ◌≡◌, ◌⊎◌, false, none, some, Option, arith, refl, ap, ◌∙◌,
  Bool-cases, inl, inr,
}
use scal.DataStructures.TsTimestamp.{Stamp, is_later}
use scal.DataStructures.TsBuffer.{Buffer, is_empty}
use scal.DataStructures.TsQueueBuffer.Knows.{first_stamp, quiet}
use scal.DataStructures.DtsQueue.{DtsQueue, Locals, keep_older, visit_buffer, scan_buffers}
use scal.DataStructures.DtsQueue.Quiet.{
  first_look, first_element, visit_buffer-vacant, visit_buffer-later, visit_buffer-at_once,
  scan_buffers-next, scan_buffers-taken,
}
use native.Mathlib.Nat.{mod-lt}
use scal.DataStructures.DtsQueue.Sees.{
  Sees, RemovesFirst, Visited, Visited-suc, sees-skip, sees-keep, sees-weaken,
}

-- The item that is removed is not later than the dequeue.
pub record TakesAtOnce (n : ℕ) (dts : Stamp) (bs : ℕ → Buffer) (x : ℕ) (bs' : ℕ → Buffer)
    : Type 0 where
  pub index : ℕ
  pub removes : RemovesFirst n bs index x bs'
  pub in_time : is_later (first_stamp (bs index)) dts ≡ false

-- What a loop over the buffers ends with: an element that is taken at once, or buffers as before and
-- locals that say which item is the oldest.
abbrev pub Ends :
    (n : ℕ) (dts : Stamp) (bs : ℕ → Buffer) (start i : ℕ) → (Option ℕ × Locals) × DtsQueue → Type 0
Ends n dts bs start i r =
    ((x : ℕ) × (r.0.0 ≡ some x) × TakesAtOnce n dts bs x r.1.buffers)
    ⊎ ((r.0.0 ≡ none) × Sees n bs r.0.1 (Visited n start i) × (r.1.buffers ≡ bs))

module _ (n : ℕ) (pos : 0 < n) (bs : ℕ → Buffer) (dts : Stamp) (start : ℕ) where
  sees-next :
      (i : ℕ) (p : Locals)
      → Sees n bs p (λ k. Visited n start i k ⊎ ((start + i) % n ≡ k))
      → Sees n bs p (Visited n start (suc i))
  sees-next i p =
      sees-weaken n bs p (λ k. Visited n start i k ⊎ ((start + i) % n ≡ k))
        (Visited n start (suc i)) (Visited-suc n start i)

  Ends-next :
      (i left : ℕ) (p : Locals) (q : DtsQueue) (p' : Locals) (q' : DtsQueue)
      → visit_buffer quiet (λ _. false) n dts ((start + i) % n) p q ≡ ((none, p'), q')
      → Ends n dts bs start
          (suc i + left)
          (scan_buffers quiet (λ _. false) n dts start (suc i) left p' q')
      → Ends n dts bs start
          (i + suc left)
          (scan_buffers quiet (λ _. false) n dts start i (suc left) p q)
  Ends-next i left p q p' q' e h =
      rw (scan_buffers-next (λ _. false) n dts start i left p q p' q' e, sums) h
    where
      sums : i + suc left ≡ suc i + left
      sums = omega arith

  pub scan_buffers-Ends :
      (i left : ℕ) (p : Locals) (clock : ℕ)
      → Sees n bs p (Visited n start i)
      → Ends n dts bs start (i + left) (
          scan_buffers quiet
            (λ _. false)
            n
            dts
            start
            i
            left
            p
            (record { buffers = bs; clock = clock }))
  unfolding scan_buffers
  scan_buffers-Ends i zero p clock h = inr (
    refl,
    sees-weaken n bs p (Visited n start i) (Visited n start (i + 0))
        (λ k v. (v.0, omega (arith, v.1), v.2)) h,
    refl,
  )
  scan_buffers-Ends i (suc left) p clock h = elim (Bool-cases (is_empty (bs index))) [
    | inl bare ↦
        Ends-next i left p q p (record { buffers = bs; clock = suc (suc (suc clock)) })
          (visit_buffer-vacant (λ _. false) n dts index p q bare)
          (scan_buffers-Ends (suc i) left p (suc (suc (suc clock)))
            (sees-next i p (sees-skip n bs index p (Visited n start i) bare h)))
    | inr full ↦ elim (Bool-cases (is_later (first_stamp (bs index)) dts)) [
      | inl later ↦
          let p' = keep_older index (first_look bs index) (first_stamp (bs index)) p in
          Ends-next i left p q p' (record { buffers = bs; clock = suc (suc (suc (suc clock))) })
            (visit_buffer-later (λ _. false) n dts index p q full later)
            (scan_buffers-Ends (suc i) left p' (suc (suc (suc (suc clock))))
              (sees-next i p' (sees-keep n bs index p (Visited n start i) in_range full h)))
      | inr in_time ↦
          let visit = visit_buffer-at_once n dts index p q full in_time in
          let taken =
            scan_buffers-taken (λ _. false) n dts start i left p q (first_element (bs index))
              visit.0 in
          inl (
            first_element (bs index),
            taken.0,
            record {
              index = index;
              removes = record {
                in_range = in_range;
                filled = full;
                element = refl;
                after = ap (λ r. r.buffers) taken.1 ∙ visit.1;
              };
              in_time = in_time;
            },
          )
    ]
  ]
    where
      index : ℕ
      index = (start + i) % n

      q : DtsQueue
      q = record { buffers = bs; clock = clock }

      in_range : index < n
      in_range = mod-lt (start + i) pos
