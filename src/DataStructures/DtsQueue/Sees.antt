-- ===== src/DataStructures/DtsQueue/Sees.antt =====
-- What a pass has seen when no other thread acts and no exchange fails without a reason.
use scal.Prelude.{
  ℕ, suc, ◌+◌, ◌%◌, ◌<◌, ◌≤◌, ◌≡◌, ◌⊎◌, true, false, none, some, arith, refl, sym, ap, ◌∙◌, subst,
  ℕ_discrete, some-inj, some-none, false-true, Bool-cases, inl, inr,
}
use scal.DataStructures.TsTimestamp.{Stamp, is_later, uint64_max}
use scal.DataStructures.TsBuffer.{Buffer, is_empty}
use scal.DataStructures.TsQueueBuffer.Knows.{first_item, first_stamp}
use scal.DataStructures.DtsQueue.{FoundItem, Locals, keep_older}
use scal.DataStructures.DtsQueue.Quiet.{without_first, first_look, first_element}

-- The item that is remembered is the first one of its buffer, with the stamp of the pass.
pub record IsFirst (n : ℕ) (bs : ℕ → Buffer) (p : Locals) (c : FoundItem) : Type 0 where
  pub in_range : c.buffer_index < n
  pub filled : is_empty (bs c.buffer_index) ≡ false
  pub first : c.result ≡ first_item (bs c.buffer_index)
  pub word : c.old_remove ≡ (bs c.buffer_index).remove
  pub stamped : p.timestamp ≡ first_stamp (bs c.buffer_index)

-- The first item of buffer k, if it has one, is not older than the stamp.
abbrev pub NotOlder : (ℕ → Buffer) → Stamp → ℕ → Type 0
NotOlder bs stamp k = is_empty (bs k) ≡ false → stamp.first ≤ (first_stamp (bs k)).first

-- What the locals say of the buffers that the pass has visited.
pub record Sees (n : ℕ) (bs : ℕ → Buffer) (p : Locals) (visited : ℕ → Type 0) : Type 0 where
  pub first : (c : FoundItem) → p.found ≡ some c → IsFirst n bs p c
  pub none_yet : p.found ≡ none → p.timestamp.first ≡ uint64_max
  pub not_older : (k : ℕ) → visited k → NotOlder bs p.timestamp k

-- The first item of a buffer is removed.
pub record RemovesFirst (n : ℕ) (bs : ℕ → Buffer) (index x : ℕ) (bs' : ℕ → Buffer) : Type 0 where
  pub in_range : index < n
  pub filled : is_empty (bs index) ≡ false
  pub element : x ≡ first_element (bs index)
  pub after : bs' ≡ without_first bs index

-- Buffer k is one of those from the 0-th to the one before i of a pass.
abbrev pub Visited : (n start i : ℕ) → ℕ → Type 0
Visited n start i k = (j : ℕ) × (j < i) × ((start + j) % n ≡ k)

pub Visited-suc :
    (n start i k : ℕ) → Visited n start (suc i) k → Visited n start i k ⊎ ((start + i) % n ≡ k)
Visited-suc n start i k (j, lt, e) = elim (ℕ_discrete j i) [
  | yes here ↦ inr (ap (λ j. (start + j) % n) (sym here) ∙ e)
  | no ne ↦ inl (j, omega arith, e)
]

module _ (n : ℕ) (bs : ℕ → Buffer) where
  pub sees-skip :
      (index : ℕ) (p : Locals) (visited : ℕ → Type 0)
      → is_empty (bs index) ≡ true
      → Sees n bs p visited
      → Sees n bs p (λ k. visited k ⊎ (index ≡ k))
  sees-skip index p visited e h = record {
    first = h.first;
    none_yet = h.none_yet;
    not_older = λ k v full. elim v [
      | inl before ↦ h.not_older k before full
      | inr here ↦ absurd (false-true (sym full ∙ subst (λ k. is_empty (bs k) ≡ true) here e))
    ];
  }

  pub sees-keep :
      (index : ℕ) (p : Locals) (visited : ℕ → Type 0)
      → index < n
      → is_empty (bs index) ≡ false
      → Sees n bs p visited
      → Sees n bs
          (keep_older index (first_look bs index) (first_stamp (bs index)) p)
          (λ k. visited k ⊎ (index ≡ k))
  unfolding keep_older is_later
  sees-keep index p visited lt e h =
      elim (Bool-cases (is_later p.timestamp (first_stamp (bs index)))) [
        | inl older ↦
            rw (e, older)
              (record {
                first = λ c same_item.
                    subst
                      (IsFirst n bs (record {
                        timestamp = first_stamp (bs index);
                        found = some (record {
                          buffer_index = index;
                          result = first_item (bs index);
                          old_remove = (bs index).remove;
                        });
                      }))
                      (some-inj same_item)
                      (record {
                        in_range = lt;
                        filled = e;
                        first = refl;
                        word = refl;
                        stamped = refl;
                      });
                none_yet = λ nothing. absurd (some-none nothing);
                not_older = λ k v full. elim v [
                  | inl before ↦ ground (arith, h.not_older k before full, older)
                  | inr here ↦
                      subst (λ k. (first_stamp (bs index)).first ≤ (first_stamp (bs k)).first) here
                        (omega arith)
                ];
              })
        | inr newer ↦
            rw (e, newer)
              (record {
                first = h.first;
                none_yet = h.none_yet;
                not_older = λ k v full. elim v [
                  | inl before ↦ h.not_older k before full
                  | inr here ↦
                      subst (λ k. p.timestamp.first ≤ (first_stamp (bs k)).first) here
                        (ground (arith, newer))
                ];
              })
      ]

  pub sees-weaken :
      (p : Locals) (visited visited' : ℕ → Type 0)
      → ((k : ℕ) → visited' k → visited k)
      → Sees n bs p visited
      → Sees n bs p visited'
  sees-weaken p visited visited' f h = record {
    first = h.first;
    none_yet = h.none_yet;
    not_older = λ k v. h.not_older k (f k v);
  }
