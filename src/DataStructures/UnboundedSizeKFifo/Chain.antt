-- ===== src/DataStructures/UnboundedSizeKFifo/Chain.antt =====
-- Well-formed queues: the segments are linked from the head to the tail, which is the last one, and
-- none of them is deleted.
use scal.Prelude.{
  ℕ, ◌+◌, ◌≤◌, ◌<◌, ◌≡◌, ◌≢◌, false, List, [], ◌∷◌, ◌++◌, refl, ap, ◌∙◌, arith, update, update_self,
  update_ne, update_keeps, Cell, next_aba, ==_iff,
}
use scal.DataStructures.UnboundedSizeKFifo.{
  UnboundedSizeKFifo, KSegment, ksegment_new, next_of, with_item, advance_tail,
}
use scal.DataStructures.UnboundedSizeKFifo.Commit.{same_self}

abbrev pub Chain : (ℕ → KSegment) → (h t : ℕ) → List ℕ → Type 0
Chain segments h t [] = h ≡ t
Chain segments h t (a ∷ ns) =
    ((segments h).next.value ≡ a) × (h < a) × ((segments h).deleted ≡ false) × Chain segments a t ns

-- The segments behind the head.
pub record IsKFifo (q : UnboundedSizeKFifo) (ns : List ℕ) : Type 0 where
  pub linked : Chain q.segments q.head.value q.tail.value ns
  pub last : (q.segments q.tail.value).next.value ≡ 0
  pub live : (q.segments q.tail.value).deleted ≡ false
  pub present : 0 < q.head.value
  pub room : q.tail.value < q.allocated
  pub positive : 0 < q.k

pub Chain-le : (segments : ℕ → KSegment) (h t : ℕ) (ns : List ℕ) → Chain segments h t ns → h ≤ t
Chain-le segments h t [] c = omega arith
Chain-le segments h t (a ∷ ns) c = omega (arith, Chain-le segments a t ns c.3)

pub Chain-same :
    (segments segments' : ℕ → KSegment) (h t : ℕ) (ns : List ℕ)
    → ((a : ℕ)
        → h ≤ a
        → a < t
        → ((segments' a).next.value ≡ (segments a).next.value)
          × ((segments' a).deleted ≡ (segments a).deleted))
    → Chain segments h t ns
    → Chain segments' h t ns
Chain-same segments segments' h t [] e c = c
Chain-same segments segments' h t (a ∷ ns) e c =
    let le = Chain-le segments a t ns c.3 in
    let here = e h (omega arith) (omega (arith, le)) in
    (
      here.0 ∙ c.0,
      c.1,
      here.1 ∙ c.2,
      Chain-same segments segments' a t ns (λ b lo hi. e b (omega (arith, lo, c.1)) hi) c.3,
    )

Chain-snoc :
    (segments : ℕ → KSegment) (h t n : ℕ) (ns : List ℕ)
    → (segments t).next.value ≡ n
    → t < n
    → (segments t).deleted ≡ false
    → Chain segments h t ns
    → Chain segments h n (ns ++ n ∷ [])
Chain-snoc segments h t n [] e lt live c = rw c (e, lt, live, refl)
Chain-snoc segments h t n (a ∷ ns) e lt live c =
    (c.0, c.1, c.2, Chain-snoc segments a t n ns e lt live c.3)

-- The queue with a new segment behind the tail.
abbrev pub appended : UnboundedSizeKFifo → UnboundedSizeKFifo
appended q =
    let n = q.allocated in
    let linked = update q.segments n ksegment_new in
    record q {
      segments = update linked q.tail.value (record (linked q.tail.value) {
        next = record { value = n; aba = next_aba (next_of q q.tail).aba };
      });
      allocated = n + 1;
      tail = record { value = n; aba = next_aba q.tail.aba };
    }

module _ (q : UnboundedSizeKFifo) (ns : List ℕ) (v : IsKFifo q ns) where
  pub advance_tail-last : advance_tail q.tail q ≡ appended q
  unfolding advance_tail
  advance_tail-last = rw (same_self q.tail, (==_iff (next_of q q.tail).value 0).1 v.last) refl

  -- What the segments that are not new keep.
  appended-keeps {ℓ} :
      {A : Type ℓ} (f : KSegment → A) (b : ℕ)
      → ((s : KSegment) (c : Cell) → f (record s { next = c }) ≡ f s)
      → q.allocated ≢ b
      → f ((appended q).segments b) ≡ f (q.segments b)
  appended-keeps f b h ne =
      let linked = update q.segments q.allocated ksegment_new in
      let c : Cell = record { value = q.allocated; aba = next_aba (next_of q q.tail).aba } in
      update_keeps f linked q.tail.value b (record (linked q.tail.value) { next = c })
        (h (linked q.tail.value) c)
      ∙ ap f (update_ne q.segments q.allocated ksegment_new b ne)

  pub appended-items :
      (b : ℕ) → q.allocated ≢ b → ((appended q).segments b).items ≡ (q.segments b).items
  appended-items b ne = appended-keeps (λ s. s.items) b (λ s c. refl) ne

  appended-deleted :
      (b : ℕ) → q.allocated ≢ b → ((appended q).segments b).deleted ≡ (q.segments b).deleted
  appended-deleted b ne = appended-keeps (λ s. s.deleted) b (λ s c. refl) ne

  appended-next : (b : ℕ) → b < q.tail.value → ((appended q).segments b).next ≡ (q.segments b).next
  appended-next b lt =
      let linked = update q.segments q.allocated ksegment_new in
      ap (λ s. s.next)
        (update_ne linked q.tail.value
            (record (linked q.tail.value) {
              next = record { value = q.allocated; aba = next_aba (next_of q q.tail).aba };
            })
            b (omega arith)
          ∙ update_ne q.segments q.allocated ksegment_new b (omega (arith, v.room)))

  appended-link : ((appended q).segments q.tail.value).next.value ≡ q.allocated
  appended-link =
      let linked = update q.segments q.allocated ksegment_new in
      ap (λ s. s.next.value)
        (update_self linked q.tail.value (record (linked q.tail.value) {
          next = record { value = q.allocated; aba = next_aba (next_of q q.tail).aba };
        }))

  pub appended-new : (appended q).segments q.allocated ≡ ksegment_new
  appended-new =
      let linked = update q.segments q.allocated ksegment_new in
      update_ne linked q.tail.value
        (record (linked q.tail.value) {
          next = record { value = q.allocated; aba = next_aba (next_of q q.tail).aba };
        })
        q.allocated (omega (arith, v.room))
      ∙ update_self q.segments q.allocated ksegment_new

  pub appended-IsKFifo : IsKFifo (appended q) (ns ++ q.allocated ∷ [])
  appended-IsKFifo = record {
    linked =
        Chain-snoc (appended q).segments q.head.value q.tail.value q.allocated ns appended-link
          v.room (appended-deleted q.tail.value (omega (arith, v.room)) ∙ v.live)
          (Chain-same q.segments (appended q).segments q.head.value q.tail.value ns
            (λ b lo hi.
              (ap (λ c. c.value) (appended-next b hi), appended-deleted b (omega (arith, v.room))))
            v.linked);
    last = ap (λ s. s.next.value) appended-new;
    live = ap (λ s. s.deleted) appended-new;
    present = v.present;
    room = omega arith;
    positive = v.positive;
  }

  pub with_item-IsKFifo : (a i : ℕ) (c : Cell) → IsKFifo (with_item q a i c) ns
  with_item-IsKFifo a i c = record {
    linked =
        Chain-same q.segments (with_item q a i c).segments q.head.value q.tail.value ns
          (λ b lo hi. (
            update_keeps (λ s. s.next.value) q.segments a b s' refl,
            update_keeps (λ s. s.deleted) q.segments a b s' refl,
          ))
          v.linked;
    last = update_keeps (λ s. s.next.value) q.segments a q.tail.value s' refl ∙ v.last;
    live = update_keeps (λ s. s.deleted) q.segments a q.tail.value s' refl ∙ v.live;
    present = v.present;
    room = v.room;
    positive = v.positive;
  }
    where
      s' : KSegment
      s' = record (q.segments a) { items = update (q.segments a).items i c }
