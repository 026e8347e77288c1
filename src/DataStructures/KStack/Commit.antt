-- ===== src/DataStructures/KStack/Commit.antt =====
-- How `committed` ends, whatever the other threads do before each of its accesses.
use scal.Prelude.{
  ℕ, ◌≡◌, ◌≢◌, ◌⊎◌, Bool, true, false, ◌==◌, refl, sym, arith, Bool-cases, ==_iff, inl, inr, Cell,
  same, same_iff, next_aba, false-true, ◌∙◌,
}
use scal.DataStructures.KSegment.{emptied}
use scal.DataStructures.KStack.{KStack, committed, take_back}
use scal.DataStructures.KStack.Rounds.{slots, with_item}

module _ (act : ℕ → KStack → KStack) (top_old item_new : Cell) (index : ℕ) (q : KStack) where
  -- The states at the six accesses.
  abbrev pub at₁ : KStack
  at₁ = act 0 q

  abbrev pub at₂ : KStack
  at₂ = act 1 at₁

  abbrev pub at₃ : KStack
  at₃ = act 2 at₂

  abbrev pub at₄ : KStack
  at₄ = act 3 at₃

  abbrev pub at₅ : KStack
  at₅ = act 4 at₄

  abbrev pub at₆ : KStack
  at₆ = act 5 at₅

  abbrev pub removes : KStack → ℕ
  removes r = (r.segments top_old.value).remove

  abbrev pub item_at : KStack → Cell
  item_at r = slots r top_old.value index

  -- The item was gone from its slot at the first access, or nobody was removing its segment at the
  -- second; nothing is written.
  abbrev pub Kept : Bool × KStack → Type 0
  Kept (done, q') =
      (done ≡ true)
      × (((item_at at₁ ≢ item_new) × (q' ≡ at₁))
          ⊎ ((item_at at₁ ≡ item_new) × (removes at₂ ≡ 0) × (q' ≡ at₂)))

  -- What holds when the segment is being removed at both loads of its counter.
  abbrev pub Leaving : Type 0
  Leaving = (item_at at₁ ≡ item_new) × (removes at₂ ≢ 0) × (removes at₃ ≢ 0)

  -- The top had not moved, and its counter moves on, so that the removal fails.
  abbrev pub Defended : Bool × KStack → Type 0
  Defended (done, q') =
      (done ≡ true)
      × Leaving
      × (at₄.top ≡ top_old)
      × (at₅.top ≡ top_old)
      × (q' ≡ record at₅ { top = record { value = top_old.value; aba = next_aba top_old.aba } })

  -- In the state r the item is taken back out of its slot, or it was gone and the commit succeeds.
  abbrev pub Withdrawn : KStack → Bool × KStack → Type 0
  Withdrawn r (done, q') =
      ((done ≡ false)
        × (item_at r ≡ item_new)
        × (q' ≡ with_item r top_old.value index (emptied item_new)))
      ⊎ ((done ≡ true) × (item_at r ≢ item_new) × (q' ≡ r))

  -- The top had moved at its load, or between that and the exchange.
  abbrev pub TakenBack : Bool × KStack → Type 0
  TakenBack r =
      Leaving
      × (((at₄.top ≢ top_old) × Withdrawn at₅ r)
          ⊎ ((at₄.top ≡ top_old) × (at₅.top ≢ top_old) × Withdrawn at₆ r))

  -- The counter of removals fell to 0 between its two loads: the commit fails, and the item stays.
  abbrev pub LeftBehind : Bool × KStack → Type 0
  LeftBehind (done, q') =
      (done ≡ false) × (item_at at₁ ≡ item_new) × (removes at₂ ≢ 0) × (removes at₃ ≡ 0) × (q' ≡ at₃)

  different : (c d : Cell) → same c d ≡ false → c ≢ d
  different c d h e = false-true (sym h ∙ (same_iff c d).1 e)

  take_back-Withdrawn : (r : KStack) → Withdrawn r (take_back top_old.value index item_new r)
  take_back-Withdrawn r = elim (Bool-cases (same (item_at r) item_new)) [
    | inl there ↦ rw there (inl (refl, (same_iff (item_at r) item_new).0 there, refl))
    | inr gone ↦ rw gone (inr (refl, different (item_at r) item_new gone, refl))
  ]

  -- Whatever the other threads do before each access, a commit ends in one of four ways. It succeeds
  -- because the item was gone from its slot, or its segment was not being removed; or because the top
  -- had not moved and its counter could be moved on. When the top has moved, it takes the item back and
  -- fails, or succeeds if the item was gone. Or it fails and leaves the item where it is, when the
  -- counter of removals was not 0 at its first load and 0 at its second one.
  pub kstack_commit :
      let r = committed act top_old item_new index q in
      Kept r ⊎ Defended r ⊎ TakenBack r ⊎ LeftBehind r
  unfolding committed
  kstack_commit = elim (Bool-cases (same (item_at at₁) item_new)) [
    | inr gone ↦
        rw (gone, committed) (inl (refl, inl (different (item_at at₁) item_new gone, refl)))
    | inl here ↦
        let there = (same_iff (item_at at₁) item_new).0 here in
        elim (Bool-cases (removes at₂ == 0)) [
          | inl calm ↦
              rw (here, calm, committed)
                (inl (refl, inr (there, (==_iff (removes at₂) 0).0 calm, refl)))
          | inr busy ↦
              let first : removes at₂ ≢ 0 = ground (arith, busy) in
              elim (Bool-cases (removes at₃ == 0)) [
                | inl calm ↦
                    rw (here, busy, calm, committed)
                      (inr (inr (inr (refl, there, first, (==_iff (removes at₃) 0).0 calm, refl))))
                | inr busy' ↦
                    let second : removes at₃ ≢ 0 = ground (arith, busy') in
                    elim (Bool-cases (same at₄.top top_old)) [
                      | inr moved ↦
                          rw (here, busy, busy', moved, committed)
                            (inr (
                              inr (
                                inl (
                                  (there, first, second),
                                  inl (different at₄.top top_old moved, take_back-Withdrawn at₅),
                                ))))
                      | inl still ↦
                          let top₄ = (same_iff at₄.top top_old).0 still in
                          elim (Bool-cases (same at₅.top top_old)) [
                            | inl wins ↦
                                rw (here, busy, busy', still, wins, committed)
                                  (inr (
                                    inl (
                                      refl,
                                      (there, first, second),
                                      top₄,
                                      (same_iff at₅.top top_old).0 wins,
                                      refl,
                                    )))
                            | inr loses ↦
                                rw (here, busy, busy', still, loses, committed)
                                  (inr (
                                    inr (
                                      inl (
                                        (there, first, second),
                                        inr (
                                          top₄,
                                          different at₅.top top_old loses,
                                          take_back-Withdrawn at₆,
                                        ),
                                      ))))
                          ]
                    ]
              ]
        ]
  ]
