-- ===== src/DataStructures/MsQueue.antt =====
-- src/datastructures/ms_queue.h: the queue of Michael and Scott, one shared access at a time. Any
-- number of threads run `enqueue`, `dequeue` and `dequeue_return_tail` in any interleaving.
--
-- Memory is a function from addresses to nodes, and 0 is NULL; `node_new` hands out an address that
-- was not handed out before, and fills the node before it is shared. A read of a packed word is one
-- access. `put` is `enqueue`, `get_return_empty_state` is `dequeue_return_tail`, and `dequeue` is
-- the same loop without the tail word, so the latter two share their steps.
pub mod Spec
pub mod Invariant
pub mod Linearizable
mod Examples
use scal.Prelude.{
  ℕ, ◌≡◌, ◌≢◌, ◌&&◌, Bool, true, false, update, Cell, next_aba, ◌==◌, Option, none, some, List, [],
}
use scal.DataStructures.History.{
  Event, History, put_called, put_returned, get_called, get_returned, recorded,
}

pub record Node : Type 0 where
  pub next : Cell
  pub item : ℕ

pub record Shared : Type 0 where
  pub head : Cell
  pub tail : Cell
  pub node : ℕ → Node
  pub used : ℕ → Bool

-- Where a thread stands, with the local variables that are live there: `n` the new node, `x` an
-- item, `h` and `t` for `head_old` and `tail_old`, `k` for `next`. The last field of `deq_check` is
-- a history variable that no test reads: the queue was seen empty when `next` was read.
pub data Pc : Type 0 where
  idle : Pc
  enq_load : (n x : ℕ) → Pc
  enq_next : (n x : ℕ) (t : Cell) → Pc
  enq_check : (n x : ℕ) (t k : Cell) → Pc
  enq_cas : (n x : ℕ) (t k : Cell) → Pc
  enq_help : (n x : ℕ) (t k : Cell) → Pc
  enq_swing : (n : ℕ) (t : Cell) → Pc
  deq_load : Pc
  deq_tail : (h : Cell) → Pc
  deq_next : (h t : Cell) → Pc
  deq_check : (h t k : Cell) (seen : Bool) → Pc
  deq_help : (h t k : Cell) → Pc
  deq_item : (h t k : Cell) → Pc
  deq_cas : (h t k : Cell) (x : ℕ) → Pc
  dequeued : (x : ℕ) (tail_raw : Cell) → Pc  -- returns true
  dequeued_none : (tail_raw : Cell) → Pc  -- returns false

-- `AtomicPointer<Node*>(p, old.aba() + 1)`
abbrev pub bump : ℕ → Cell → Cell
bump p old = record { value = p; aba = next_aba old.aba }

abbrev pub link_next : Shared → ℕ → Cell → Shared
link_next m p k = record m { node = update m.node p (record { next = k; item = (m.node p).item }) }

-- `node_new`
abbrev pub alloc : Shared → ℕ → ℕ → Shared
alloc m n x = record m {
  node = update m.node n (record { next = record { value = 0; aba = 0 }; item = x });
  used = update m.used n true;
}

-- One step of one thread.
pub data Move (m : Shared) : Pc → Shared → Pc → Type 0 where
  call_enqueue :
      {n : ℕ} (x : ℕ) → n ≢ 0 → m.used n ≡ false → Move m idle (alloc m n x) (enq_load n x)
  load_tail : {n x : ℕ} → Move m (enq_load n x) m (enq_next n x m.tail)
  load_next :
      {n x : ℕ} {t : Cell} → Move m (enq_next n x t) m (enq_check n x t (m.node t.value).next)
  enq_stale : {n x : ℕ} {t k : Cell} → t ≢ m.tail → Move m (enq_check n x t k) m (enq_load n x)
  enq_end :
      {n x : ℕ} {t k : Cell}
      → t ≡ m.tail
      → k.value ≡ 0
      → Move m (enq_check n x t k) m (enq_cas n x t k)
  enq_behind :
      {n x : ℕ} {t k : Cell}
      → t ≡ m.tail
      → k.value ≢ 0
      → Move m (enq_check n x t k) m (enq_help n x t k)
  enq_wins :
      {n x : ℕ} {t k : Cell}
      → (m.node t.value).next ≡ k
      → Move m (enq_cas n x t k) (link_next m t.value (bump n k)) (enq_swing n t)
  enq_loses :
      {n x : ℕ} {t k : Cell} → (m.node t.value).next ≢ k → Move m (enq_cas n x t k) m (enq_load n x)
  enq_helps :
      {n x : ℕ} {t k : Cell}
      → m.tail ≡ t
      → Move m (enq_help n x t k) (record m { tail = bump k.value t }) (enq_load n x)
  enq_helped : {n x : ℕ} {t k : Cell} → m.tail ≢ t → Move m (enq_help n x t k) m (enq_load n x)
  swing_wins :
      {n : ℕ} {t : Cell} → m.tail ≡ t → Move m (enq_swing n t) (record m { tail = bump n t }) idle
  swing_loses : {n : ℕ} {t : Cell} → m.tail ≢ t → Move m (enq_swing n t) m idle
  call_dequeue : Move m idle m deq_load
  deq_head : Move m deq_load m (deq_tail m.head)
  deq_reads_tail : {h : Cell} → Move m (deq_tail h) m (deq_next h m.tail)
  deq_reads_next :
      {h t : Cell}
      → Move m (deq_next h t) m (
          deq_check h t
            (m.node h.value).next
            (m.head.value == h.value && (m.node h.value).next.value == 0))
  deq_stale : {h t k : Cell} {seen : Bool} → m.head ≢ h → Move m (deq_check h t k seen) m deq_load
  deq_empty :
      {h t k : Cell} {seen : Bool}
      → m.head ≡ h
      → h.value ≡ t.value
      → k.value ≡ 0
      → Move m (deq_check h t k seen) m (dequeued_none t)
  deq_behind :
      {h t k : Cell} {seen : Bool}
      → m.head ≡ h
      → h.value ≡ t.value
      → k.value ≢ 0
      → Move m (deq_check h t k seen) m (deq_help h t k)
  deq_some :
      {h t k : Cell} {seen : Bool}
      → m.head ≡ h
      → h.value ≢ t.value
      → Move m (deq_check h t k seen) m (deq_item h t k)
  deq_helps :
      {h t k : Cell}
      → m.tail ≡ t
      → Move m (deq_help h t k) (record m { tail = bump k.value t }) deq_load
  deq_helped : {h t k : Cell} → m.tail ≢ t → Move m (deq_help h t k) m deq_load
  load_item : {h t k : Cell} → Move m (deq_item h t k) m (deq_cas h t k (m.node k.value).item)
  deq_wins :
      {h t k : Cell} {x : ℕ}
      → m.head ≡ h
      → Move m (deq_cas h t k x) (record m { head = bump k.value h }) (dequeued x t)
  deq_loses : {h t k : Cell} {x : ℕ} → m.head ≢ h → Move m (deq_cas h t k x) m deq_load
  return : {x : ℕ} {t : Cell} → Move m (dequeued x t) m idle
  return_none : {t : Cell} → Move m (dequeued_none t) m idle

pub record System : Type 0 where
  pub mem : Shared
  pub pc : ℕ → Pc

-- The constructor's state: head and tail at one node that holds no item.
abbrev pub init : System
init = record {
  mem = record {
    head = record { value = 1; aba = 0 };
    tail = record { value = 1; aba = 0 };
    node = λ _. record { next = record { value = 0; aba = 0 }; item = 0 };
    used = update (λ _. false) 1 true;
  };
  pc = λ _. idle;
}

-- What a step lets a client see: the calls, and the answers. `enqueue` returns after it has tried to
-- move the tail.
abbrev pub event : {m m' : Shared} {p p' : Pc} → Move m p m' p' → Option Event
event (Move.call_enqueue x ne un) = some (put_called x)
event (Move.swing_wins g) = some put_returned
event (Move.swing_loses g) = some put_returned
event Move.call_dequeue = some get_called
event (Move.return {x}) = some (get_returned (some x))
event Move.return_none = some (get_returned none)
event mv = none

pub data Step (s : System) : ℕ → Option Event → System → Type 0 where
  step :
      (i : ℕ) {m : Shared} {p : Pc} (mv : Move s.mem (s.pc i) m p)
      → Step s i (event mv) (record { mem = m; pc = update s.pc i p })

-- The runs from the constructor's state, with their histories.
pub data Reach : History → System → Type 0 where
  start : Reach [] init
  later :
      {h : History} {s t : System} {i : ℕ} {e : Option Event}
      → Reach h s
      → Step s i e t
      → Reach (recorded i e h) t
