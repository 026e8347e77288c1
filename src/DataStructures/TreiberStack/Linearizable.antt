-- ===== src/DataStructures/TreiberStack/Linearizable.antt =====
-- The runs of the Treiber stack against the atomic stack: a push and a pop of an item take effect at
-- their successful exchanges, and a pop that answers empty at its read of a NULL top.
use scal.Prelude.{
  ℕ, ◌≡◌, ◌≢◌, List, [], ◌∷◌, Option, none, some, All, update, arith, refl, Cell, update_self, sym,
  ap, ◌∙◌, subst,
}
use scal.DataStructures.TreiberStack.{
  Node, Shared, Pc, idle, push_load, push_link, push_cas, pop_item, popped, popped_empty, pop_cas,
  Move, System, Step, step, Reach, start, later, init, event,
}
use scal.DataStructures.History.{Event, History}
use scal.DataStructures.TreiberStack.Invariant.{
  Inv, IsFresh, Links, Move-Inv, stack_after, unused, tail,
}
use scal.DataStructures.TreiberStack.Spec.{
  Status, ready, pushing, popping, answered, Abstract, Act, AbstractStep, Behaviour, nothing, more,
}

-- What the client sees of a thread. An answer is the item of the node that was taken.
abbrev pub status : Shared → Pc → Status
status m idle = ready
status m (push_load n x) = pushing x
status m (push_link n x t) = pushing x
status m (push_cas n x t) = pushing x
status m (pop_item t) = answered (some (m.node t.value).item)
status m (popped x t) = answered (some x)
status m (popped_empty t) = answered none
status m _ = popping

abbrev pub items : (ℕ → Node) → List ℕ → List ℕ
items node [] = []
items node (p ∷ ps) = (node p).item ∷ items node ps

abbrev pub view : System → List ℕ → Abstract
view s ps = record { stack = items s.mem.node ps; status = λ i. status s.mem (s.pc i) }

pub Inv-init : Inv init.mem init.pc []
Inv-init = record {
  links = refl;
  in_use = tt;
  shared = λ k. tt;
  own = λ k q h. cc;
  unique = λ j k q g h. cc;
  held = λ k q h. cc;
  apart = λ j k q h. cc;
  fresh = λ k. tt;
}

items-update :
    (node : ℕ → Node) (n : ℕ) (v : Node) (ps : List ℕ)
    → All (λ q. some n ≢ some q) ps
    → items (update node n v) ps ≡ items node ps
items-update node n v [] h = refl
items-update node n v (p ∷ ps) h = ground (arith, items-update node n v ps)

-- A node's `next` is not part of the view.
items-link :
    (node : ℕ → Node) (n k : ℕ) (ps : List ℕ)
    → items (update node n (record { next = k; item = (node n).item })) ps ≡ items node ps
items-link node n k [] = refl
items-link node n k (p ∷ ps) = ground (arith, items-link node n k ps)

module _ {m : Shared} {pc : ℕ → Pc} {ps : List ℕ} (inv : Inv m pc ps) (i : ℕ) where
  open inv use {links, in_use, held, own, fresh}

  -- The threads that do not move see no change: an item that was taken stays in its node.
  others :
      {p p' : Pc} {m' : Shared}
      → Move m p m' p'
      → (j : ℕ) → i ≢ j
      → status m' (update pc i p' j) ≡ status m (pc j)
  others (Move.call_push {n} x ne un) j d = ground (arith, held j n)
  others mv j d = ground arith

  pop_act :
      {top_old : Cell} {next : ℕ}
      → m.top ≡ top_old
      → pc i ≡ pop_cas top_old next
      → (qs : List ℕ) → Links m.node m.top.value qs
      → Act popping
          (items m.node qs)
          none
          (answered (some (m.node top_old.value).item))
          (items m.node (tail qs))
  pop_act {top_old} g e [] l = absurd ((held i top_old.value (rw e)).0 (ap Cell.value (sym g) ∙ l))
  pop_act g e (q ∷ qs) (a, ne, l) = rw (← g, a) Act.pop

  empty_act :
      (qs : List ℕ)
      → Links m.node m.top.value qs
      → m.top.value ≡ 0
      → Act popping (items m.node qs) none (answered none) (items m.node qs)
  empty_act [] l z = Act.pop_empty
  empty_act (q ∷ qs) (a, ne, l) z = absurd (ne (sym a ∙ z))

  move_act :
      {p p' : Pc} {m' : Shared} (mv : Move m p m' p')
      → pc i ≡ p
      → Act
          (status m p)
          (items m.node ps)
          (event mv)
          (status m' p')
          (items m'.node (stack_after mv ps))
  unfolding stack_after
  move_act (Move.call_push {n} x ne un) e =
      rw (items-update m.node n (record { next = 0; item = x }) ps (unused inv i un))
        (Act.call_push x)
  move_act (Move.link {n} {top_old = t}) e = rw (items-link m.node n t.value ps) Act.stutter
  move_act (Move.push_wins {n} {x} g) e = rw ((subst (IsFresh m) e (fresh i)).0) (Act.push x)
  move_act Move.call_pop e = Act.call_pop
  move_act (Move.load_empty z) e = empty_act ps links z
  move_act (Move.pop_wins g) e = pop_act g e ps links
  move_act Move.return e = Act.return
  move_act Move.return_empty e = Act.return
  move_act mv e = Act.stutter

-- Each step of the program is a step of the atomic stack, by the same thread, and keeps the
-- invariant. A step between the linearization points is one that changes nothing.
pub Step-simulates :
    {i : ℕ} {s t : System} {e : Option Event} {ps : List ℕ}
    → Step s i e t
    → Inv s.mem s.pc ps
    → (qs : List ℕ) × Inv t.mem t.pc qs × AbstractStep (view s ps) i e (view t qs)
Step-simulates {s} {ps} (step i {m} {p} mv) inv = (
  stack_after mv ps,
  Move-Inv inv i mv,
  record { act = rw (update_self s.pc i p) (move_act inv i mv refl); others = others inv i mv },
)

-- `TreiberStack` is linearizable: for every run of any number of threads in any interleaving, its
-- history of calls and answers is a history of the atomic stack, which ends with the items of the
-- linked nodes and with the threads where the run has them. In the atomic stack every operation takes
-- effect at one instant between its call and its answer.
pub treiber_linearizable :
    {h : History} {s : System}
    → Reach h s
    → (ps : List ℕ) × Inv s.mem s.pc ps × Behaviour h (view s ps)
treiber_linearizable start = ([], Inv-init, nothing)
treiber_linearizable (later r st) =
    let (ps, inv, b) = treiber_linearizable r in
    let (qs, inv', act) = Step-simulates st inv in (qs, inv', more b act)
