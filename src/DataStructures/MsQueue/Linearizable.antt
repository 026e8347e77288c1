-- ===== src/DataStructures/MsQueue/Linearizable.antt =====
-- The runs of the Michael-Scott queue against the atomic queue. Enqueues take effect when their node is
-- linked, dequeues of an item when they move the head.
use scal.Prelude.{
  ℕ, zero, suc, ◌+◌, ◌-◌, ◌≡◌, ◌≤◌, ◌<◌, ◌&&◌, inl, inr, List, [], ◌∷◌, ◌++◌, Option, none, some,
  update_self, update_ne, arith, refl, true, false, Bool, Bool-cases, Cell, ap, ap₂, ◌∙◌, ◌==◌,
}
use scal.DataStructures.MsQueue
use scal.DataStructures.MsQueue.{
  Node, Shared, Pc, Move, System, Step, step, Reach, start, later, init, event,
}
use scal.DataStructures.History.{Event, History}
use scal.DataStructures.MsQueue.Invariant.{
  Log, Inv, Move-Inv, log_after, at_head, own-IsFresh, append,
}
use scal.DataStructures.MsQueue.Spec.{
  Status, ready, adding, added, taking, answered, Abstract, Act, AbstractStep, Behaviour, nothing,
  more,
}

abbrev pub status : Pc → Status
status Pc.idle = ready
status (Pc.enq_load n x) = adding x
status (Pc.enq_next n x t) = adding x
status (Pc.enq_check n x t k) = adding x
status (Pc.enq_cas n x t k) = adding x
status (Pc.enq_help n x t k) = adding x
status (Pc.enq_swing n t) = added
status (Pc.dequeued x t) = answered (some x)
status (Pc.dequeued_none t) = answered none
status (Pc.deq_check h t k seen) = taking seen
status _ = taking false

-- The items at n positions from k on.
abbrev pub items : (ℕ → ℕ) → ℕ → ℕ → List ℕ
items f k zero = []
items f k (suc n) = f k ∷ items f (suc k) n

abbrev pub item_at : Log → Shared → ℕ → ℕ
item_at l m k = (m.node (l.at k)).item

-- The queue: the items behind the head, up to the last linked node.
abbrev pub queue : Log → Shared → List ℕ
queue l m = items (item_at l m) (suc l.hd) (l.last - l.hd)

abbrev pub view : System → Log → Abstract
view s l = record { queue = queue l s.mem; status = λ i. status (s.pc i) }

items-cong : (f g : ℕ → ℕ) (k n : ℕ) → ((j : ℕ) → j < k + n → f j ≡ g j) → items f k n ≡ items g k n
items-cong f g k zero h = refl
items-cong f g k (suc n) h =
    ap₂ ◌∷◌ (h k (omega arith)) (items-cong f g (suc k) n (λ j b. h j (omega arith)))

items-snoc : (f : ℕ → ℕ) (k n : ℕ) → items f k (suc n) ≡ items f k n ++ f (k + n) ∷ []
items-snoc f k zero = ap (λ j. f j ∷ []) (omega arith)
items-snoc f k (suc n) =
    ap (λ xs. f k ∷ xs)
      (items-snoc f (suc k) n ∙ ap (λ j. items f (suc k) n ++ f j ∷ []) (omega arith))

abbrev pub first_log : Log
first_log = record { at = λ _. 1; pos = λ _. 0; last = 0; hd = 0; tl = 0 }

pub Inv-init : Inv first_log init.mem init.pc
Inv-init = record {
  head_at = refl;
  tail_at = refl;
  order = omega arith;
  placed = λ k b. omega arith;
  in_use = λ k b. (omega arith, refl);
  linked = λ k b. absurd (omega arith);
  ended = refl;
  own = λ i q h. cc;
  unique = λ i j q g h. cc;
  apart = λ i k b h. cc;
  fresh = λ i. tt;
}

module _ {l : Log} {m : Shared} {pc : ℕ → Pc} (inv : Inv l m pc) (i : ℕ) where
  open inv use {head_at, order, in_use, linked, own}

  queue-alloc : (n x : ℕ) → m.used n ≡ false → queue l (MsQueue.alloc m n x) ≡ queue l m
  queue-alloc n x un = items-cong _ _ (suc l.hd) (l.last - l.hd) (λ j b. ground (arith, in_use j))

  suc_sub : (l.hd ≤ l.tl) × (l.tl ≤ l.last) → suc l.last - l.hd ≡ suc (l.last - l.hd)
  suc_sub o = omega arith

  queue-append :
      (n x : ℕ) (p : ℕ) (k : Cell)
      → (m.node n).item ≡ x
      → queue (append l n) (MsQueue.link_next m p k) ≡ queue l m ++ x ∷ []
  queue-append n x p k e =
      let g = item_at (append l n) (MsQueue.link_next m p k) in
      rw (suc_sub order) (
        items-snoc g (suc l.hd) (l.last - l.hd)
        ∙ ap (λ xs. xs ++ g (suc l.hd + (l.last - l.hd)) ∷ [])
            (items-cong g (item_at l m) (suc l.hd) (l.last - l.hd) (λ j b. ground arith))
        ∙ ap (λ y. queue l m ++ y ∷ []) (ground arith))

  sub_last : l.hd ≡ l.last → l.last - l.hd ≡ 0
  sub_last e = omega arith

  queue-empty : l.hd ≡ l.last → queue l m ≡ []
  queue-empty e = rw (sub_last e)

  -- What is read as the head's successor is NULL only if the queue is empty.
  seen_empty :
      {h t : Cell}
      → pc i ≡ Pc.deq_next h t
      → (m.head.value == h.value && (m.node h.value).next.value == 0) ≡ true
      → l.hd ≡ l.last
  seen_empty {h} e s =
      let f = own-IsFresh inv i e in
      ground (arith, linked (l.pos h.value), in_use (suc (l.pos h.value)), inv.placed l.hd)

  was_seen :
      {h t k : Cell} {seen : Bool}
      → pc i ≡ Pc.deq_check h t k seen
      → m.head ≡ h
      → k.value ≡ 0
      → seen ≡ true
  was_seen {h} e g z =
      let f = own-IsFresh inv i e in
      let p = at_head inv i g f.0 in elim (f.5 z) [ inl s ↦ s | inr b ↦ absurd (omega arith) ]

  sub_first : l.hd < l.last → l.last - l.hd ≡ suc (l.last - suc l.hd)
  sub_first b = omega arith

  -- The node behind the head holds the item that the dequeue has read.
  queue-first :
      {h t k : Cell} {x : ℕ}
      → pc i ≡ Pc.deq_cas h t k x
      → m.head ≡ h
      → queue l m ≡ x ∷ queue (record l { hd = suc l.hd }) m
  queue-first {h} {t} {k} {x} e g =
      let f = own-IsFresh inv i e in
      let p = at_head inv i g f.0 in
      rw (sub_first (omega arith))
        (ap (λ y. y ∷ queue (record l { hd = suc l.hd }) m) (ground arith))

  move_act :
      {p p' : Pc} {m' : Shared} (mv : Move m p m' p')
      → pc i ≡ p
      → Act (status p) (queue l m) (event mv) (status p') (queue (log_after mv l) m')
  unfolding log_after
  move_act (Move.call_enqueue {n} x ne un) e = rw (queue-alloc n x un) (Act.call_add x)
  move_act (Move.enq_wins {n} {x} {t} {k} g) e =
      rw (queue-append n x t.value (MsQueue.bump n k) (own-IsFresh inv i e).0.0) (Act.add x)
  move_act (Move.swing_wins g) e = Act.return_add
  move_act (Move.swing_loses g) e = Act.return_add
  move_act Move.call_dequeue e = Act.call_take
  move_act (Move.deq_reads_next {h} {t}) e =
      elim (Bool-cases (m.head.value == h.value && (m.node h.value).next.value == 0)) [
        | inl s ↦ rw (s, queue-empty (seen_empty e s)) Act.observe
        | inr s ↦ rw s Act.stutter
      ]
  move_act (Move.deq_stale g) e = Act.forget
  move_act (Move.deq_empty {h} {t} {k} {seen} g s z) e = rw (was_seen e g z) Act.take_none
  move_act (Move.deq_behind g s z) e = Act.forget
  move_act (Move.deq_some g s) e = Act.forget
  move_act (Move.deq_wins {h} {t} {k} {x} g) e = rw (queue-first e g) Act.take
  move_act Move.return e = Act.return
  move_act Move.return_none e = Act.return
  move_act mv e = Act.stutter

-- Each step of the program is a step of the atomic queue, by the same thread, and keeps the
-- invariant. A step between the linearization points is one that changes nothing.
pub Step-simulates :
    {i : ℕ} {s t : System} {e : Option Event} {l : Log}
    → Step s i e t
    → Inv l s.mem s.pc
    → (l' : Log) × Inv l' t.mem t.pc × AbstractStep (view s l) i e (view t l')
Step-simulates {s} {l} (step i {m} {p} mv) inv = (
  log_after mv l,
  Move-Inv inv i mv,
  record {
    act = rw (update_self s.pc i p) (move_act inv i mv refl);
    others = λ j d. ap status (update_ne s.pc i p j d);
  },
)

-- `MSQueue` is linearizable: for every run of any number of threads in any interleaving, its history
-- of calls and answers is a history of the atomic queue, which ends with the items of the nodes
-- behind the head and with the threads where the run has them. In the atomic queue an enqueue, and a
-- dequeue of an item, take effect at one instant between call and answer, and a dequeue that answers
-- empty has met the queue empty at an instant since its call.
pub ms_linearizable :
    {h : History} {s : System} → Reach h s → (l : Log) × Inv l s.mem s.pc × Behaviour h (view s l)
ms_linearizable start = (first_log, Inv-init, nothing)
ms_linearizable (later r st) =
    let (l, inv, b) = ms_linearizable r in
    let (l', inv', act) = Step-simulates st inv in (l', inv', more b act)
