-- ===== src/DataStructures/KStack/Rounds.antt =====
-- What a round of `push` does when no other thread interferes.
use scal.Prelude.{
  ℕ, ◌+◌, ◌<◌, ◌≡◌, ◌≢◌, Bool, true, ◌==◌, none, some, refl, sym, subst, update, Bool-cases,
  Option-cases, inl, inr, Cell, same, same_iff,
}
use scal.DataStructures.KSegment.{
  Round, returns, again, filled, find_index-some, find_index-none, wanted_free, unwanted_free,
  wanted,
}
use scal.DataStructures.KStack.{
  KStack, new_segment, try_add_new_ksegment, committed, alone, find_index, push_round,
}

pub same_self : (c : Cell) → same c c ≡ true
same_self c = (same_iff c c).1 refl

abbrev pub slots : KStack → ℕ → ℕ → Cell
slots q segment = (q.segments segment).items

-- The state with one slot written.
abbrev pub with_item : KStack → (segment index : ℕ) → Cell → KStack
with_item q segment index c =
    let s = q.segments segment in
    record q { segments = update q.segments segment (record s { items = update s.items index c }) }

-- The stacks agree but for the top's counter and the records.
pub record Agrees (q q' : KStack) : Type 0 where
  pub segments : q'.segments ≡ q.segments
  pub allocated : q'.allocated ≡ q.allocated
  pub top : q'.top.value ≡ q.top.value
  pub k : q'.k ≡ q.k

pub Agrees-refl : (q : KStack) → Agrees q q
Agrees-refl q = record { segments = refl; allocated = refl; top = refl; k = refl }

-- If the stack's top has not moved, the commit succeeds.
committed_still :
    (item_new : Cell) (index : ℕ) (q : KStack)
    → ((committed alone q.top item_new index q).0 ≡ true)
      × Agrees q (committed alone q.top item_new index q).1
unfolding committed
committed_still item_new index q =
    let s = q.segments q.top.value in
    elim (Bool-cases (same (s.items index) item_new)) [
      | inr gone ↦ rw gone (refl, Agrees-refl q)
      | inl there ↦ elim (Bool-cases (s.remove == 0)) [
        | inl calm ↦ rw (there, calm) (refl, Agrees-refl q)
        | inr leaving ↦
            rw (there, leaving, same_self q.top)
              (refl, record { segments = refl; allocated = refl; top = refl; k = refl })
      ]
    ]

-- The item was put in a free slot of the top segment, and nothing else has changed.
pub record Pushed (q : KStack) (item : ℕ) (q' : KStack) : Type 0 where
  pub place : ℕ
  pub near : place < q.k
  pub free : (slots q q.top.value place).value ≡ 0
  pub agrees : Agrees (with_item q q.top.value place (filled item (slots q q.top.value place))) q'

-- The top segment is full, and an empty one is on top of it now.
pub record Grown (q q' : KStack) : Type 0 where
  pub full : (d : ℕ) → d < q.k → (slots q q.top.value d).value ≢ 0
  pub after : q' ≡ record q {
    segments = update q.segments q.allocated (new_segment q.top.value);
    allocated = q.allocated + 1;
    top = record { value = q.allocated; aba = q.top.aba };
  }

abbrev pub PushRound : KStack → ℕ → Round KStack Bool → Type 0
PushRound q item (returns done q') = (done ≡ true) × Pushed q item q'
PushRound q item (again q') = Grown q q'

module _ (item random : ℕ) (q : KStack) where
  push-none :
      find_index q.top.value random true q ≡ none
      → push_round item random q
        ≡ again (record q {
          segments = update q.segments q.allocated (new_segment q.top.value);
          allocated = q.allocated + 1;
          top = record { value = q.allocated; aba = q.top.aba };
        })
  unfolding push_round try_add_new_ksegment
  push-none e = rw (e, push_round, same_self q.top) refl

  module _ (index : ℕ) (c : Cell) where
    abbrev stored : KStack
    stored = with_item q q.top.value index (filled item c)

    push-some :
        find_index q.top.value random true q ≡ some (index, c)
        → c ≡ slots q q.top.value index
        → push_round item random q
          ≡ returns true (committed alone stored.top (filled item c) index stored).1
    unfolding push_round
    push-some e at =
        rw
          (
            e,
            push_round,
            same_self q.top,
            (same_iff (slots q q.top.value index) c).1 (sym at),
            (committed_still (filled item c) index stored).0,
          )
          refl

  -- A round of `push` puts the item in a free slot of the top segment, if there is one, and returns
  -- true; otherwise it puts a new segment on top, and goes round again.
  pub push_round-outcome : PushRound q item (push_round item random q)
  unfolding find_index
  push_round-outcome = elim (Option-cases (find_index q.top.value random true q)) [
    | inl e ↦ rw (push-none e) (record { full = full e; after = refl })
    | inr ((index, c), e) ↦
        let found = find_lem index c e in
        rw (push-some index c e found.1) (
          refl,
          record {
            place = index;
            near = found.0;
            free = subst (λ c. c.value ≡ 0) found.1 (wanted_free c found.2);
            agrees =
                subst
                  (λ d.
                    Agrees (with_item q q.top.value index (filled item d))
                      (committed alone (stored index c).top (filled item c) index
                        (stored index c)).1)
                  found.1 (committed_still (filled item c) index (stored index c)).1;
          },
        )
  ]
    where
      find_lem :
          (index : ℕ) (c : Cell)
          → find_index q.top.value random true q ≡ some (index, c)
          → (index < q.k) × (c ≡ slots q q.top.value index) × (wanted true c ≡ true)
      find_lem index c e = find_index-some (slots q q.top.value) q.k random true e

      full :
          find_index q.top.value random true q ≡ none
          → (d : ℕ) → d < q.k
          → (slots q q.top.value d).value ≢ 0
      full e d lt =
          unwanted_free (slots q q.top.value d)
            (find_index-none (slots q q.top.value) q.k random true e d lt)
