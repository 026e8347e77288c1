-- ===== src/DataStructures/DtsQueue/Quiet.antt =====
-- One visit of a buffer when no other thread acts.
use scal.Prelude.{
  ℕ, suc, ◌+◌, ◌≡◌, Bool, true, false, none, some, refl, ◌%◌, ap, update, update_self, same_iff,
  Cell,
}
use scal.DataStructures.TsTimestamp.{Stamp, is_later}
use scal.DataStructures.TsBuffer.{Buffer, removed_to, is_empty}
use scal.DataStructures.TsQueueBuffer.Knows.{first_item, first_stamp, quiet}
use scal.DataStructures.DtsQueue.{
  DtsQueue, Locals, Look, keep_older, others_act, look, load_timestamp, remove_item, visit_buffer,
  scan_buffers,
}

-- The buffers without the oldest item of the one at index.
abbrev pub without_first : (ℕ → Buffer) → ℕ → ℕ → Buffer
without_first bs index =
    update bs index
      (record (bs index) { remove = removed_to (first_item (bs index)) (bs index).remove })

-- What a look at a buffer finds.
abbrev pub first_look : (ℕ → Buffer) → ℕ → Look
first_look bs index = record {
  tmp_remove = (bs index).remove;
  tmp_insert = (bs index).insert;
  item = first_item (bs index);
}

abbrev pub first_element : Buffer → ℕ
first_element b = (b.heap (first_item b)).data_

module _ (spurious : ℕ → Bool) (n : ℕ) (dts : Stamp) (index : ℕ) (p : Locals) (q : DtsQueue) where
  pub visit_buffer-vacant :
      is_empty (q.buffers index) ≡ true
      → visit_buffer quiet spurious n dts index p q
        ≡ ((none, p), record q { clock = suc (suc (suc q.clock)) })
  unfolding visit_buffer look others_act
  visit_buffer-vacant e = rw e refl

  pub visit_buffer-later :
      is_empty (q.buffers index) ≡ false
      → is_later (first_stamp (q.buffers index)) dts ≡ true
      → visit_buffer quiet spurious n dts index p q ≡ (
        (none, keep_older index (first_look q.buffers index) (first_stamp (q.buffers index)) p),
        record q { clock = suc (suc (suc (suc q.clock))) },
      )
  unfolding visit_buffer look load_timestamp others_act
  visit_buffer-later e h = rw (e, h) refl

module _ (n index item : ℕ) (old_remove : Cell) (q : DtsQueue) where
  -- An exchange at the word that the buffer has, which does not fail without a reason.
  pub remove_item-quiet :
      (q.buffers index).remove ≡ old_remove
      → ((remove_item quiet (λ _. false) n index item old_remove q).0
          ≡ some ((q.buffers index).heap item).data_)
        × ((remove_item quiet (λ _. false) n index item old_remove q).1.buffers
            ≡ update q.buffers index
                (record (q.buffers index) { remove = removed_to item old_remove }))
  unfolding remove_item others_act
  remove_item-quiet e = rw ((same_iff (q.buffers index).remove old_remove).1 e) (
    rw
        (update_self q.buffers index
          (record (q.buffers index) { remove = removed_to item old_remove }))
        refl,
    refl,
  )

module _ (n : ℕ) (dts : Stamp) (index : ℕ) (p : Locals) (q : DtsQueue) where
  pub visit_buffer-at_once :
      is_empty (q.buffers index) ≡ false
      → is_later (first_stamp (q.buffers index)) dts ≡ false
      → ((visit_buffer quiet (λ _. false) n dts index p q).0.0
          ≡ some (first_element (q.buffers index)))
        × ((visit_buffer quiet (λ _. false) n dts index p q).1.buffers
            ≡ without_first q.buffers index)
  unfolding visit_buffer look load_timestamp others_act
  visit_buffer-at_once e h =
      let removed =
        remove_item-quiet n index (first_item (q.buffers index)) (q.buffers index).remove
          (record q { clock = suc (suc (suc (suc q.clock))) }) refl in
      rw (e, h, removed.0) (refl, removed.1)

module _ (spurious : ℕ → Bool) (n : ℕ) (dts : Stamp) (start i left : ℕ) (p : Locals)
    (q : DtsQueue) where
  -- The loop goes on when nothing was taken at once.
  pub scan_buffers-next :
      (p' : Locals) (q' : DtsQueue)
      → visit_buffer quiet spurious n dts ((start + i) % n) p q ≡ ((none, p'), q')
      → scan_buffers quiet spurious n dts start i (suc left) p q
        ≡ scan_buffers quiet spurious n dts start (suc i) left p' q'
  unfolding scan_buffers
  scan_buffers-next p' q' e =
      rw (ap (λ x. x.0.0) e, ap (λ x. x.0.1) e, ap (λ x. x.1) e, scan_buffers) refl

  -- It ends when an element was taken at once.
  pub scan_buffers-taken :
      (x : ℕ)
      → (visit_buffer quiet spurious n dts ((start + i) % n) p q).0.0 ≡ some x
      → ((scan_buffers quiet spurious n dts start i (suc left) p q).0.0 ≡ some x)
        × ((scan_buffers quiet spurious n dts start i (suc left) p q).1
            ≡ (visit_buffer quiet spurious n dts ((start + i) % n) p q).1)
  unfolding scan_buffers
  scan_buffers-taken x e = rw (e, scan_buffers) (refl, refl)
