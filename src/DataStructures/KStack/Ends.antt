-- ===== src/DataStructures/KStack/Ends.antt =====
-- `push` and `pop` come to an end on a well-formed stack, when no other thread interferes.
use scal.Prelude.{
  update_keeps, ℕ, zero, suc, ◌+◌, ◌%◌, ◌^◌, ◌≤◌, ◌<◌, ◌≡◌, ◌≢◌, ◌⊎◌, Option, none, some, List, [],
  ◌∷◌, ◌++◌, length, All, All-imp, refl, sym, ap, ◌∙◌, subst, arith, update, update_self, update_ne,
  inl, inr, Cell,
}
use scal.DataStructures.KSegment.{Round, returns, again, emptied}
use scal.DataStructures.KStack.{KStack, KSegment, pop_round, pop}
use scal.DataStructures.KStack.Empty.{IsBare}
use scal.DataStructures.KStack.Rounds.{slots, with_item}
use scal.DataStructures.KStack.Pop.{Popped, Bottom, Shrunk, PopRound, pop_round-outcome}

-- From the segment h on, the linked segments are these, and addresses fall.
abbrev pub Stacked : (ℕ → KSegment) → ℕ → List ℕ → Type 0
Stacked segments h [] = h ≡ 0
Stacked segments h (a ∷ rest) =
    (h ≡ a) × ((segments a).next.value < a) × Stacked segments (segments a).next.value rest

-- The stack's segments, from the top on. There is at least one, and memory behind them is free.
pub record IsStack (q : KStack) (ns : List ℕ) : Type 0 where
  pub linked : Stacked q.segments q.top.value ns
  pub present : 0 < q.top.value
  pub room : q.top.value < q.allocated
  pub positive : 0 < q.k

-- Links below a bound decide.
pub Stacked-same :
    (segments segments' : ℕ → KSegment) (h : ℕ) (ns : List ℕ)
    → ((a : ℕ) → a ≤ h → (segments' a).next ≡ (segments a).next)
    → Stacked segments h ns
    → Stacked segments' h ns
Stacked-same segments segments' h [] e c = c
Stacked-same segments segments' h (a ∷ rest) e c =
    let same_next = e a (omega (arith, c.0)) in
    rw same_next (
      c.0,
      c.1,
      Stacked-same segments segments' (segments a).next.value rest
          (λ b le. e b (omega (arith, c.0, c.1))) c.2,
    )

slots-with_item :
    (q : KStack) (a i b : ℕ) (c : Cell) → a ≢ b → slots (with_item q a i c) b ≡ slots q b
slots-with_item q a i b c ne =
    ap (λ s. s.items)
      (update_ne q.segments a (record (q.segments a) { items = update (slots q a) i c }) b ne)

-- A `pop` of the stack with these segments has taken an item out of the first one that is not empty,
-- which is the top now.
pub record Taken (q : KStack) (ns : List ℕ) (x : ℕ) (q' : KStack) : Type 0 where
  pub before : List ℕ
  pub segment : ℕ
  pub after : List ℕ
  pub split : ns ≡ before ++ segment ∷ after
  pub bare : All (λ a. IsBare (slots q a) q.k) before
  pub place : ℕ
  pub near : place < q.k
  pub held : (slots q segment place).value ≡ x
  pub real : x ≢ 0
  pub is_stack : IsStack q' (segment ∷ after)
  pub emptied_slot :
      slots q' segment ≡ update (slots q segment) place (emptied (slots q segment place))
  pub other_slots : (b : ℕ) → segment ≢ b → slots q' b ≡ slots q b

-- All segments were empty; the last one is the only one now, and no slot of any has changed.
pub record FoundEmpty (q : KStack) (ns : List ℕ) (q' : KStack) : Type 0 where
  pub bare : All (λ a. IsBare (slots q a) q.k) ns
  pub before : List ℕ
  pub bottom : ℕ
  pub split : ns ≡ before ++ bottom ∷ []
  pub is_stack : IsStack q' (bottom ∷ [])
  pub same_slots : (b : ℕ) → slots q' b ≡ slots q b

abbrev pub PopEnds : KStack → List ℕ → Option ℕ → KStack → Type 0
PopEnds q ns none q' = FoundEmpty q ns q'
PopEnds q ns (some x) q' = Taken q ns x q'

Popped-Taken :
    (q q' : KStack) (a : ℕ) (rest : List ℕ) (x : ℕ)
    → IsStack q (a ∷ rest)
    → Popped q x q'
    → Taken q (a ∷ rest) x q'
Popped-Taken q q' a rest x v p =
    let c = emptied (slots q q.top.value p.place) in
    record {
      before = [];
      segment = a;
      after = rest;
      split = refl;
      bare = tt;
      place = p.place;
      near = p.near;
      held = rw (← v.linked.0) p.held;
      real = p.real;
      is_stack = rw p.after (record {
        linked =
            Stacked-same q.segments (with_item q q.top.value p.place c).segments q.top.value
              (a ∷ rest)
              (λ b le.
                update_keeps (λ s. s.next) q.segments q.top.value b
                  (record (q.segments q.top.value) {
                    items = update (slots q q.top.value) p.place c;
                  })
                  refl)
              v.linked;
        present = v.present;
        room = v.room;
        positive = v.positive;
      });
      emptied_slot =
          rw (p.after, ← v.linked.0)
            (ap (λ s. s.items)
              (update_self q.segments q.top.value (record (q.segments q.top.value) {
                items = update (slots q q.top.value) p.place c;
              })));
      other_slots = λ b ne.
          rw p.after (slots-with_item q q.top.value p.place b c (λ e. ne (sym v.linked.0 ∙ e)));
    }

-- What is left after the top segment was removed.
module _ (q q' : KStack) (a : ℕ) (rest : List ℕ) (v : IsStack q (a ∷ rest)) (s : Shrunk q q') where
  shrunk-slots : (b : ℕ) → slots q' b ≡ slots q b
  shrunk-slots b =
      ap (λ f. (f b).items) s.segments
      ∙ update_keeps (λ s. s.items) q.segments q.top.value b
          (record (q.segments q.top.value) {
            remove = ((q.segments q.top.value).remove + 1) % 2 ^ 64;
          })
          refl

  shrunk-IsStack : IsStack q' rest
  shrunk-IsStack = record {
    linked =
        rw (s.top, v.linked.0)
          (Stacked-same q.segments q'.segments (q.segments a).next.value rest
            (λ b le.
              ap (λ f. (f b).next) s.segments
              ∙ update_keeps (λ s. s.next) q.segments q.top.value b
                  (record (q.segments q.top.value) {
                    remove = ((q.segments q.top.value).remove + 1) % 2 ^ 64;
                  })
                  refl)
            v.linked.2);
    present = omega (arith, s.top, s.not_last);
    room = omega (
      arith,
      s.top,
      s.allocated,
      v.room,
      v.linked.0,
      v.linked.1,
      ap (λ h. (q.segments h).next.value) v.linked.0,
    );
    positive = omega (arith, s.k, v.positive);
  }

  shrunk-IsBare : (b : ℕ) → IsBare (slots q' b) q'.k → IsBare (slots q b) q.k
  shrunk-IsBare b bare d lt =
      ap (λ f. (f d).value) (sym (shrunk-slots b)) ∙ bare d (omega (arith, s.k))

  shrunk-ends : (r : Option ℕ) (q'' : KStack) → PopEnds q' rest r q'' → PopEnds q (a ∷ rest) r q''
  shrunk-ends none q'' h = record {
    bare = (rw (← v.linked.0) s.bare, All-imp rest (λ b bare. shrunk-IsBare b bare) h.bare);
    before = a ∷ h.before;
    bottom = h.bottom;
    split = ap (λ l. a ∷ l) h.split;
    is_stack = h.is_stack;
    same_slots = λ b. h.same_slots b ∙ shrunk-slots b;
  }
  shrunk-ends (some x) q'' t = record {
    before = a ∷ t.before;
    segment = t.segment;
    after = t.after;
    split = ap (λ l. a ∷ l) t.split;
    bare = (rw (← v.linked.0) s.bare, All-imp t.before (λ b bare. shrunk-IsBare b bare) t.bare);
    place = t.place;
    near = omega (arith, s.k, t.near);
    held = ap (λ f. (f t.place).value) (sym (shrunk-slots t.segment)) ∙ t.held;
    real = t.real;
    is_stack = t.is_stack;
    emptied_slot =
        t.emptied_slot ∙ ap (λ f. update f t.place (emptied (f t.place))) (shrunk-slots t.segment);
    other_slots = λ b ne. t.other_slots b ne ∙ shrunk-slots b;
  }

-- The segment at the bottom was empty, and nothing else has changed.
module _ (q q' : KStack) (a : ℕ) (rest : List ℕ) (v : IsStack q (a ∷ rest)) (b : Bottom q q') where
  nothing_below : (ns : List ℕ) → Stacked q.segments (q.segments a).next.value ns → ns ≡ []
  nothing_below [] c = refl
  nothing_below (b' ∷ ns) c =
      absurd (omega (arith, c.0, c.1, b.last, ap (λ h. (q.segments h).next.value) v.linked.0))

  Bottom-FoundEmpty : FoundEmpty q (a ∷ rest) q'
  Bottom-FoundEmpty = rw (nothing_below rest v.linked.2) (record {
    bare = (rw (← v.linked.0) b.bare, tt);
    before = [];
    bottom = a;
    split = refl;
    is_stack = record {
      linked = rw (b.agrees.segments, b.agrees.top) (v.linked.0, v.linked.1, at_bottom);
      present = omega (arith, b.agrees.top, v.present);
      room = omega (arith, b.agrees.top, b.agrees.allocated, v.room);
      positive = omega (arith, b.agrees.k, v.positive);
    };
    same_slots = λ c. ap (λ f. (f c).items) b.agrees.segments;
  })
    where
      at_bottom : (q.segments a).next.value ≡ 0
      at_bottom = ap (λ h. (q.segments h).next.value) (sym v.linked.0) ∙ b.last

Round-cases :
    (r : Round KStack (Option ℕ))
    → ((x : Option ℕ) × (q' : KStack) × (r ≡ returns x q')) ⊎ ((q' : KStack) × (r ≡ again q'))
Round-cases (returns x q') = inl (x, q', refl)
Round-cases (again q') = inr (q', refl)

module _ (rand rand' : ℕ → ℕ) where
  pop-returns :
      (fuel : ℕ) (q : KStack) (x : Option ℕ) (q' : KStack)
      → pop_round (rand fuel) (rand' fuel) q ≡ returns x q'
      → pop rand rand' (suc fuel) q ≡ some (x, q')
  unfolding pop
  pop-returns fuel q x q' e = rw (e, pop) refl

  pop-again :
      (fuel : ℕ) (q q' : KStack)
      → pop_round (rand fuel) (rand' fuel) q ≡ again q'
      → pop rand rand' (suc fuel) q ≡ pop rand rand' fuel q'
  unfolding pop
  pop-again fuel q q' e = rw (e, pop) refl

  -- On a well-formed stack, as many rounds as it has segments are enough for `pop`: it answers empty
  -- only if every segment is empty, and otherwise takes an item out of the first segment that is not;
  -- all other slots keep their words, and the stack stays well-formed, with the segments from that
  -- one on, or with only the last one if the answer is empty.
  pub pop_ends :
      (fuel : ℕ) (q : KStack) (ns : List ℕ)
      → IsStack q ns
      → length ns ≤ fuel
      → (r : Option ℕ) × (q' : KStack) × (pop rand rand' fuel q ≡ some (r, q')) × PopEnds q ns r q'
  pop_ends fuel q [] v le = absurd (omega (arith, v.linked, v.present))
  pop_ends zero q (a ∷ rest) v le = absurd (omega arith)
  pop_ends (suc fuel) q (a ∷ rest) v le =
      elim (Round-cases (pop_round (rand fuel) (rand' fuel) q)) [
        | inl (some x, q', e) ↦ (
          some x,
          q',
          pop-returns fuel q (some x) q' e,
          Popped-Taken q q' a rest x v
              (subst (PopRound q) e (pop_round-outcome (rand fuel) (rand' fuel) q v.positive)),
        )
        | inl (none, q', e) ↦
            let b : Bottom q q' =
              subst (PopRound q) e (pop_round-outcome (rand fuel) (rand' fuel) q v.positive) in
            (none, q', pop-returns fuel q none q' e, Bottom-FoundEmpty q q' a rest v b)
        | inr (q', e) ↦
            let s : Shrunk q q' =
              subst (PopRound q) e (pop_round-outcome (rand fuel) (rand' fuel) q v.positive) in
            let (r, q'', f, ends) =
              pop_ends fuel q' rest (shrunk-IsStack q q' a rest v s) (omega arith) in
            (r, q'', pop-again fuel q q' e ∙ f, shrunk-ends q q' a rest v s r q'' ends)
      ]
