-- ===== src/DataStructures/KStack/PushEnds.antt =====
-- `push` comes to an end on a well-formed stack, when no other thread interferes.
use scal.Prelude.{
  update_keeps, ℕ, suc, ◌<◌, ◌≡◌, ◌⊎◌, Bool, true, some, List, ◌∷◌, refl, ap, ◌∙◌, subst, arith,
  update, update_self, update_ne, inl, inr,
}
use scal.DataStructures.KSegment.{Round, returns, again, filled}
use scal.DataStructures.KStack.{KStack, new_segment, push_round, push}
use scal.DataStructures.KStack.Rounds.{
  slots, with_item, Pushed, Grown, PushRound, push_round-outcome,
}
use scal.DataStructures.KStack.Ends.{IsStack, Stacked-same}

pub Pushed-IsStack :
    (q q' : KStack) (item : ℕ) (ns : List ℕ) → IsStack q ns → Pushed q item q' → IsStack q' ns
Pushed-IsStack q q' item ns v p =
    let c = filled item (slots q q.top.value p.place) in
    record {
      linked =
          rw (p.agrees.segments, p.agrees.top)
            (Stacked-same q.segments (with_item q q.top.value p.place c).segments q.top.value ns
              (λ b le.
                update_keeps (λ s. s.next) q.segments q.top.value b
                  (record (q.segments q.top.value) {
                    items = update (slots q q.top.value) p.place c;
                  })
                  refl)
              v.linked);
      present = omega (arith, p.agrees.top, v.present);
      room = omega (arith, p.agrees.top, p.agrees.allocated, v.room);
      positive = omega (arith, p.agrees.k, v.positive);
    }

pub Grown-IsStack :
    (q q' : KStack) (ns : List ℕ) → IsStack q ns → Grown q q' → IsStack q' (q.allocated ∷ ns)
Grown-IsStack q q' ns v g =
    let new = new_segment q.top.value in
    rw g.after (record {
      linked = rw (update_self q.segments q.allocated new) (
        refl,
        v.room,
        Stacked-same q.segments (update q.segments q.allocated new) q.top.value ns
            (λ b le.
              ap (λ s. s.next) (update_ne q.segments q.allocated new b (omega (arith, v.room))))
            v.linked,
      );
      present = omega (arith, v.room);
      room = omega arith;
      positive = v.positive;
    })

-- A new segment is not full.
Grown-once : (q q' q'' : KStack) → 0 < q.k → Grown q q' → ¬ Grown q' q''
Grown-once q q' q'' pos g h = h.full 0 (omega (arith, pos, ap (λ r. r.k) g.after)) (
    ap (λ r. (slots r r.top.value 0).value) g.after
    ∙ ap (λ s. (s.items 0).value) (update_self q.segments q.allocated (new_segment q.top.value)))

Round-cases :
    (r : Round KStack Bool)
    → ((x : Bool) × (q' : KStack) × (r ≡ returns x q')) ⊎ ((q' : KStack) × (r ≡ again q'))
Round-cases (returns x q') = inl (x, q', refl)
Round-cases (again q') = inr (q', refl)

-- The item went to the top segment, or to a new one on top of it.
abbrev pub PushEnds : KStack → List ℕ → ℕ → KStack → Type 0
PushEnds q ns item q' =
    (Pushed q item q' × IsStack q' ns)
    ⊎ ((g : KStack) × Grown q g × Pushed g item q' × IsStack q' (q.allocated ∷ ns))

module _ (rand : ℕ → ℕ) (item : ℕ) where
  push-returns :
      (fuel : ℕ) (q : KStack) (x : Bool) (q' : KStack)
      → push_round item (rand fuel) q ≡ returns x q'
      → push rand (suc fuel) item q ≡ some (x, q')
  unfolding push
  push-returns fuel q x q' e = rw (e, push) refl

  push-again :
      (fuel : ℕ) (q q' : KStack)
      → push_round item (rand fuel) q ≡ again q'
      → push rand (suc fuel) item q ≡ push rand fuel item q'
  unfolding push
  push-again fuel q q' e = rw (e, push) refl

  -- The second round succeeds.
  push_after_growth :
      (fuel : ℕ) (q g : KStack) (ns : List ℕ)
      → IsStack q ns
      → Grown q g
      → (q' : KStack) × (push rand (suc fuel) item g ≡ some (true, q'))
        × Pushed g item q'
        × IsStack q' (q.allocated ∷ ns)
  push_after_growth fuel q g ns v grown =
      let w = Grown-IsStack q g ns v grown in
      elim (Round-cases (push_round item (rand fuel) g)) [
        | inl (x, q', e) ↦
            let done : (x ≡ true) × Pushed g item q' =
              subst (PushRound g item) e (push_round-outcome item (rand fuel) g) in
            (
              q',
              push-returns fuel g x q' e ∙ ap (λ b. some (b, q')) done.0,
              done.1,
              Pushed-IsStack g q' item (q.allocated ∷ ns) w done.1,
            )
        | inr (q', e) ↦ absurd (
            Grown-once q g q' v.positive grown
              (subst (PushRound g item) e (push_round-outcome item (rand fuel) g)))
      ]

  -- On a well-formed stack two rounds are enough for `push`: it returns true and has put the item in
  -- a free slot of the top segment, or of a new segment that it has put on top of the full one, and
  -- the stack stays well-formed.
  pub push_ends :
      (fuel : ℕ) (q : KStack) (ns : List ℕ)
      → IsStack q ns
      → (q' : KStack) × (push rand (suc (suc fuel)) item q ≡ some (true, q'))
        × PushEnds q ns item q'
  push_ends fuel q ns v = elim (Round-cases (push_round item (rand (suc fuel)) q)) [
    | inl (x, q', e) ↦
        let done : (x ≡ true) × Pushed q item q' =
          subst (PushRound q item) e (push_round-outcome item (rand (suc fuel)) q) in
        (
          q',
          push-returns (suc fuel) q x q' e ∙ ap (λ b. some (b, q')) done.0,
          inl (done.1, Pushed-IsStack q q' item ns v done.1),
        )
    | inr (g, e) ↦
        let grown : Grown q g =
          subst (PushRound q item) e (push_round-outcome item (rand (suc fuel)) q) in
        let (q', f, pushed, w) = push_after_growth fuel q g ns v grown in
        (q', push-again (suc fuel) q g e ∙ f, inr (g, grown, pushed, w))
  ]
