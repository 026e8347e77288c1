-- ===== src/DataStructures/KStack/Pop.antt =====
-- What a round of `pop` does when no other thread interferes.
use scal.Prelude.{
  ℕ, ◌+◌, ◌%◌, ◌^◌, ◌<◌, ◌≡◌, ◌≢◌, false, ◌==◌, Option, none, some, refl, sym, ap, ◌∙◌, arith,
  update_self, Bool-cases, Option-cases, ==_iff, inl, inr, Cell, same, same_iff, next_aba,
}
use scal.DataStructures.KSegment.{
  Round, returns, again, emptied, find_index-some, find_index-none, wanted_item, unwanted_item,
}
use scal.DataStructures.KStack.{
  KStack, is_empty, add_remove, try_remove_ksegment, find_index, pop_round,
}
use scal.DataStructures.KStack.Empty.{IsBare, is_empty_iff, is_empty-rest}
use scal.DataStructures.KStack.Rounds.{slots, with_item, Agrees, same_self}

-- The item x was taken out of a slot of the top segment, and nothing else has changed.
pub record Popped (q : KStack) (x : ℕ) (q' : KStack) : Type 0 where
  pub place : ℕ
  pub near : place < q.k
  pub held : (slots q q.top.value place).value ≡ x
  pub real : x ≢ 0
  pub after : q' ≡ with_item q q.top.value place (emptied (slots q q.top.value place))

abbrev pub next_of : KStack → ℕ
next_of q = (q.segments q.top.value).next.value

-- The top segment is empty and was the last one.
pub record Bottom (q q' : KStack) : Type 0 where
  pub bare : IsBare (slots q q.top.value) q.k
  pub last : next_of q ≡ 0
  pub agrees : Agrees q q'

-- The top segment was empty, and the next one is the top now.
pub record Shrunk (q q' : KStack) : Type 0 where
  pub bare : IsBare (slots q q.top.value) q.k
  pub not_last : next_of q ≢ 0
  pub segments : q'.segments ≡ (add_remove q.top.value 1 q).segments
  pub top : q'.top.value ≡ next_of q
  pub allocated : q'.allocated ≡ q.allocated
  pub k : q'.k ≡ q.k

abbrev pub PopRound : KStack → Round KStack (Option ℕ) → Type 0
PopRound q (returns (some x) q') = Popped q x q'
PopRound q (returns none q') = Bottom q q'
PopRound q (again q') = Shrunk q q'

-- A segment that is marked keeps its slots and its link.
marked :
    (segment n : ℕ) (q : KStack)
    → (slots (add_remove segment n q) segment ≡ slots q segment)
      × (((add_remove segment n q).segments segment).next ≡ (q.segments segment).next)
marked segment n q =
    let s = q.segments segment in
    let eq = update_self q.segments segment (record s { remove = (s.remove + n) % 2 ^ 64 }) in
    (ap (λ t. t.items) eq, ap (λ t. t.next) eq)

module _ (random : ℕ) (q : KStack) (pos : 0 < q.k) where
  abbrev q₁ : KStack
  q₁ = add_remove q.top.value 1 q

  abbrev removed : KStack
  removed =
      let q₂ = (is_empty q.top.value random q₁).1 in
      record q₂ {
        top = record { value = (q₂.segments q.top.value).next.value; aba = next_aba q.top.aba };
      }

  try_remove-bare :
      IsBare (slots q q.top.value) q.k
      → next_of q ≢ 0
      → try_remove_ksegment random q.top q ≡ removed
  unfolding try_remove_ksegment
  try_remove-bare bare ne =
      rw
        (
          same_self q.top,
          not_zero ne,
          (is_empty_iff q.top.value random q₁ pos).1 (rw (marked q.top.value 1 q).0 bare),
          ap (λ r. same r.top q.top) (is_empty-rest q.top.value random q₁ pos) ∙ same_self q.top,
        )
        refl
    where
      not_zero : next_of q ≢ 0 → (next_of q == 0) ≡ false
      not_zero h = ground arith

  try_remove-Shrunk :
      IsBare (slots q q.top.value) q.k
      → next_of q ≢ 0
      → Shrunk q (try_remove_ksegment random q.top q)
  try_remove-Shrunk bare ne =
      let rest = is_empty-rest q.top.value random q₁ pos in
      rw (try_remove-bare bare ne) (record {
        bare = bare;
        not_last = ne;
        segments = ap (λ r. r.segments) rest;
        top =
            ap (λ r. (r.segments q.top.value).next.value) rest
            ∙ ap (λ c. c.value) (marked q.top.value 1 q).1;
        allocated = ap (λ r. r.allocated) rest;
        k = ap (λ r. r.k) rest;
      })

module _ (random random' : ℕ) (q : KStack) (pos : 0 < q.k) where
  pop-some :
      (index : ℕ) (c : Cell)
      → find_index q.top.value random false q ≡ some (index, c)
      → c ≡ slots q q.top.value index
      → pop_round random random' q
        ≡ returns (some c.value) (with_item q q.top.value index (emptied c))
  unfolding pop_round
  pop-some index c e at =
      rw (e, pop_round, same_self q.top, (same_iff (slots q q.top.value index) c).1 (sym at)) refl

  pop-last :
      find_index q.top.value random false q ≡ none
      → IsBare (slots q q.top.value) q.k
      → next_of q ≡ 0
      → pop_round random random' q ≡ returns none (is_empty q.top.value random' q).1
  unfolding pop_round
  pop-last e bare z =
      rw
        (
          e,
          pop_round,
          same_self q.top,
          (==_iff (next_of q) 0).1 z,
          (is_empty_iff q.top.value random' q pos).1 bare,
          ap (λ r. same r.top q.top) (is_empty-rest q.top.value random' q pos) ∙ same_self q.top,
        )
        refl

  pop-next :
      find_index q.top.value random false q ≡ none
      → (next_of q == 0) ≡ false
      → pop_round random random' q ≡ again (try_remove_ksegment random' q.top q)
  unfolding pop_round
  pop-next e ne = rw (e, pop_round, same_self q.top, ne) refl

  -- A round of `pop` takes an item out of the top segment, if there is one; it answers empty only if
  -- that segment is empty and the last one; and otherwise the segment is empty and is removed, and the
  -- next round looks at the one below.
  pub pop_round-outcome : PopRound q (pop_round random random' q)
  unfolding find_index
  pop_round-outcome = elim (Option-cases (find_index q.top.value random false q)) [
    | inl e ↦ elim (Bool-cases (next_of q == 0)) [
      | inl z ↦
          let rest = is_empty-rest q.top.value random' q pos in
          rw (pop-last e (bare e) ((==_iff (next_of q) 0).0 z)) (record {
            bare = bare e;
            last = (==_iff (next_of q) 0).0 z;
            agrees = record {
              segments = ap (λ r. r.segments) rest;
              allocated = ap (λ r. r.allocated) rest;
              top = ap (λ r. r.top.value) rest;
              k = ap (λ r. r.k) rest;
            };
          })
      | inr ne ↦ rw (pop-next e ne) (try_remove-Shrunk random' q pos (bare e) (ground (arith, ne)))
    ]
    | inr ((index, c), e) ↦
        let found = find_index-some (slots q q.top.value) q.k random false e in
        rw (pop-some index c e found.1) (record {
          place = index;
          near = found.0;
          held = ap (λ c. c.value) (sym found.1);
          real = wanted_item c found.2;
          after = rw (sym found.1) refl;
        })
  ]
    where
      bare : find_index q.top.value random false q ≡ none → IsBare (slots q q.top.value) q.k
      bare e d lt =
          unwanted_item (slots q q.top.value d)
            (find_index-none (slots q q.top.value) q.k random false e d lt)
