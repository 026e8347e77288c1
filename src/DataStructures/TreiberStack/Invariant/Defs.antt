-- ===== src/DataStructures/TreiberStack/Invariant/Defs.antt =====
-- The invariant of the Treiber stack, over the addresses of the nodes in the stack, topmost first.
use scal.Prelude.{ℕ, ◌≡◌, ◌≢◌, Option, none, some, List, [], ◌∷◌, true, All}
use scal.DataStructures.TreiberStack.{
  Node, Shared, Pc, push_load, push_link, push_cas, pop_next, pop_cas, pop_item,
}

-- The node that a thread is about to push.
abbrev pub owns : Pc → Option ℕ
owns (push_load n x) = some n
owns (push_link n x t) = some n
owns (push_cas n x t) = some n
owns _ = none

-- The node whose fields a thread has read or will read.
abbrev pub reads : Pc → Option ℕ
reads (pop_next t) = some t.value
reads (pop_cas t k) = some t.value
reads (pop_item t) = some t.value
reads _ = none

-- What the locals of a thread say about the memory.
abbrev pub IsFresh : Shared → Pc → Type 0
IsFresh m (push_load n x) = (m.node n).item ≡ x
IsFresh m (push_link n x t) = (m.node n).item ≡ x
IsFresh m (push_cas n x t) = ((m.node n).item ≡ x) × ((m.node n).next ≡ t.value)
IsFresh m (pop_cas t k) = (m.node t.value).next ≡ k
IsFresh m _ = Unit

-- The nodes from p on, up to NULL.
abbrev pub Links : (ℕ → Node) → ℕ → List ℕ → Type 0
Links node p [] = p ≡ 0
Links node p (q ∷ qs) = (p ≡ q) × (q ≢ 0) × Links node (node q).next qs

pub record Inv (m : Shared) (pc : ℕ → Pc) (ps : List ℕ) : Type 0 where
  pub links : Links m.node m.top.value ps
  pub in_use : All (λ q. m.used q ≡ true) ps
  pub shared : (k : ℕ) → All (λ q. owns (pc k) ≢ some q) ps
  pub own : (k q : ℕ) → owns (pc k) ≡ some q → (q ≢ 0) × (m.used q ≡ true)
  pub unique : (j k q : ℕ) → owns (pc j) ≡ some q → owns (pc k) ≡ some q → j ≡ k
  pub held : (k q : ℕ) → reads (pc k) ≡ some q → (q ≢ 0) × (m.used q ≡ true)
  pub apart : (j k q : ℕ) → reads (pc j) ≡ some q → owns (pc k) ≢ some q
  pub fresh : (k : ℕ) → IsFresh m (pc k)
