-- ===== src/DataStructures/TreiberStack.antt =====
-- src/datastructures/treiber_stack.h: the lock-free stack, one shared access at a time. Any number
-- of threads run `push`, `pop` and `get_return_empty_state` in any interleaving.
--
-- Memory is a function from addresses to nodes, and 0 is NULL. `tlget` hands out an address that
-- was not handed out before: the thread-local allocator does so until its buffer wraps around
-- (Util/Malloc.antt). `data` is written before the node is shared, so with the allocation it is one
-- step. `put`, `push`, and `pop` without its out-parameters, are the same code and share their steps.
pub mod Spec
pub mod Invariant
pub mod Linearizable
mod Examples
use scal.Prelude.{
  ℕ, ◌≡◌, ◌≢◌, Bool, true, false, update, Cell, next_aba, Option, none, some, List, [],
}
use scal.DataStructures.History.{
  Event, History, put_called, put_returned, get_called, get_returned, recorded,
}

pub record Node : Type 0 where
  pub next : ℕ
  pub item : ℕ

pub record Shared : Type 0 where
  pub top : Cell
  pub node : ℕ → Node
  pub used : ℕ → Bool

-- Where a thread stands, with the local variables that are live there.
pub data Pc : Type 0 where
  idle : Pc
  push_load : (n x : ℕ) → Pc  -- before `top_old = *top_`
  push_link : (n x : ℕ) (top_old : Cell) → Pc  -- before the write of `n->next`
  push_cas : (n x : ℕ) (top_old : Cell) → Pc
  pop_load : Pc
  pop_next : (top_old : Cell) → Pc  -- before the read of `top_old.value()->next`
  pop_cas : (top_old : Cell) (next : ℕ) → Pc
  pop_item : (top_old : Cell) → Pc  -- before `*item = top_old.value()->data`
  popped : (item : ℕ) (state : Cell) → Pc  -- returns true
  popped_empty : (state : Cell) → Pc  -- returns false

-- The word that `push` puts at the top, and the one that `pop` puts there.
abbrev pub pushed_top : ℕ → Cell → Cell
pushed_top n top_old = record { value = n; aba = next_aba top_old.aba }

-- One step of one thread.
pub data Move (m : Shared) : Pc → Shared → Pc → Type 0 where
  call_push :
      {n : ℕ} (x : ℕ)
      → n ≢ 0
      → m.used n ≡ false
      → Move m idle
          (record m {
            node = update m.node n (record { next = 0; item = x });
            used = update m.used n true;
          })
          (push_load n x)
  load_top : {n x : ℕ} → Move m (push_load n x) m (push_link n x m.top)
  link :
      {n x : ℕ} {top_old : Cell}
      → Move m
          (push_link n x top_old)
          (record m {
            node = update m.node n (record { next = top_old.value; item = (m.node n).item });
          })
          (push_cas n x top_old)
  push_wins :
      {n x : ℕ} {top_old : Cell}
      → m.top ≡ top_old
      → Move m (push_cas n x top_old) (record m { top = pushed_top n top_old }) idle
  push_loses :
      {n x : ℕ} {top_old : Cell} → m.top ≢ top_old → Move m (push_cas n x top_old) m (push_load n x)
  call_pop : Move m idle m pop_load
  load_empty : m.top.value ≡ 0 → Move m pop_load m (popped_empty m.top)
  load_some : m.top.value ≢ 0 → Move m pop_load m (pop_next m.top)
  load_next :
      {top_old : Cell} → Move m (pop_next top_old) m (pop_cas top_old (m.node top_old.value).next)
  pop_wins :
      {top_old : Cell} {next : ℕ}
      → m.top ≡ top_old
      → Move m
          (pop_cas top_old next)
          (record m { top = pushed_top next top_old })
          (pop_item top_old)
  pop_loses :
      {top_old : Cell} {next : ℕ} → m.top ≢ top_old → Move m (pop_cas top_old next) m pop_load
  load_item :
      {top_old : Cell} → Move m (pop_item top_old) m (popped (m.node top_old.value).item top_old)
  return : {x : ℕ} {state : Cell} → Move m (popped x state) m idle
  return_empty : {state : Cell} → Move m (popped_empty state) m idle

-- All threads, and the constructor's state: an empty stack.
pub record System : Type 0 where
  pub mem : Shared
  pub pc : ℕ → Pc

abbrev pub init : System
init = record {
  mem = record {
    top = record { value = 0; aba = 0 };
    node = λ _. record { next = 0; item = 0 };
    used = λ _. false;
  };
  pc = λ _. idle;
}

-- What a step lets a client see: the calls, and the answers. A successful exchange of `push` returns.
abbrev pub event : {m m' : Shared} {p p' : Pc} → Move m p m' p' → Option Event
event (Move.call_push x ne un) = some (put_called x)
event (Move.push_wins g) = some put_returned
event Move.call_pop = some get_called
event (Move.return {x}) = some (get_returned (some x))
event Move.return_empty = some (get_returned none)
event mv = none

pub data Step (s : System) : ℕ → Option Event → System → Type 0 where
  step :
      (i : ℕ) {m : Shared} {p : Pc} (mv : Move s.mem (s.pc i) m p)
      → Step s i (event mv) (record { mem = m; pc = update s.pc i p })

-- The runs from the constructor's state, with their histories.
pub data Reach : History → System → Type 0 where
  start : Reach [] init
  later :
      {h : History} {s t : System} {i : ℕ} {e : Option Event}
      → Reach h s
      → Step s i e t
      → Reach (recorded i e h) t
