-- ===== src/DataStructures/MsQueue/Invariant/Defs.antt =====
-- The invariant of the Michael-Scott queue, over the log of all nodes that were ever linked.
use scal.Prelude.{ℕ, suc, ◌≡◌, ◌≢◌, ◌≤◌, ◌<◌, ◌⊎◌, Option, none, some, true}
use scal.DataStructures.MsQueue.{
  Shared, Pc, enq_load, enq_next, enq_check, enq_cas, enq_help, enq_swing, deq_tail, deq_next,
  deq_check, deq_help, deq_item, deq_cas,
}

-- `at k` is the address of the k-th linked node, for k up to `last`, and `pos` its inverse. Head and
-- tail stand at positions `hd` and `tl`.
pub record Log : Type 0 where
  pub at : ℕ → ℕ
  pub pos : ℕ → ℕ
  pub last : ℕ
  pub hd : ℕ
  pub tl : ℕ

abbrev pub owns : Pc → Option ℕ
owns (enq_load n x) = some n
owns (enq_next n x t) = some n
owns (enq_check n x t k) = some n
owns (enq_cas n x t k) = some n
owns (enq_help n x t k) = some n
owns _ = none

-- The node at p is linked, at a position up to k.
abbrev pub Upto : Log → ℕ → ℕ → Type 0
Upto l k p = (l.pos p ≤ k) × (l.at (l.pos p) ≡ p)

-- What was read as the successor of the node at p: none, or its successor in the log.
abbrev pub NextOf : Log → ℕ → ℕ → Type 0
NextOf l p k = (k ≡ 0) ⊎ ((l.pos p < l.last) × (k ≡ l.at (suc (l.pos p))))

-- The new node of an enqueue.
abbrev pub IsNew : Shared → ℕ → ℕ → Type 0
IsNew m n x = ((m.node n).item ≡ x) × ((m.node n).next.value ≡ 0)

-- What the locals of a thread say.
abbrev pub IsFresh : Log → Shared → Pc → Type 0
IsFresh l m (enq_load n x) = IsNew m n x
IsFresh l m (enq_next n x t) = IsNew m n x × Upto l l.tl t.value
IsFresh l m (enq_check n x t k) = IsNew m n x × Upto l l.tl t.value × NextOf l t.value k.value
IsFresh l m (enq_cas n x t k) = IsNew m n x × Upto l l.tl t.value × (k.value ≡ 0)
IsFresh l m (enq_help n x t k) =
    IsNew m n x
    × Upto l l.tl t.value
    × (l.pos t.value < l.last)
    × (k.value ≡ l.at (suc (l.pos t.value)))
IsFresh l m (enq_swing n t) =
    Upto l l.tl t.value × (l.pos t.value < l.last) × (n ≡ l.at (suc (l.pos t.value)))
IsFresh l m (deq_tail h) = Upto l l.hd h.value
IsFresh l m (deq_next h t) =
    Upto l l.hd h.value × Upto l l.tl t.value × (l.pos h.value ≤ l.pos t.value)
IsFresh l m (deq_check h t k seen) =
    Upto l l.hd h.value
    × Upto l l.tl t.value
    × (l.pos h.value ≤ l.pos t.value)
    × NextOf l h.value k.value
    × (k.value ≡ 0 → l.pos h.value ≡ l.pos t.value)
    × (k.value ≡ 0 → (seen ≡ true) ⊎ (l.pos h.value < l.hd))
IsFresh l m (deq_help h t k) =
    Upto l l.tl t.value × (l.pos t.value < l.last) × (k.value ≡ l.at (suc (l.pos t.value)))
IsFresh l m (deq_item h t k) =
    Upto l l.hd h.value × (l.pos h.value < l.tl) × (k.value ≡ l.at (suc (l.pos h.value)))
IsFresh l m (deq_cas h t k x) =
    Upto l l.hd h.value
    × (l.pos h.value < l.tl)
    × (k.value ≡ l.at (suc (l.pos h.value)))
    × ((m.node k.value).item ≡ x)
IsFresh l m _ = Unit

pub record Inv (l : Log) (m : Shared) (pc : ℕ → Pc) : Type 0 where
  pub head_at : m.head.value ≡ l.at l.hd
  pub tail_at : m.tail.value ≡ l.at l.tl
  pub order : (l.hd ≤ l.tl) × (l.tl ≤ l.last)
  pub placed : (k : ℕ) → k ≤ l.last → l.pos (l.at k) ≡ k
  pub in_use : (k : ℕ) → k ≤ l.last → (l.at k ≢ 0) × (m.used (l.at k) ≡ true)
  pub linked : (k : ℕ) → k < l.last → (m.node (l.at k)).next.value ≡ l.at (suc k)
  pub ended : (m.node (l.at l.last)).next.value ≡ 0
  pub own : (i q : ℕ) → owns (pc i) ≡ some q → (q ≢ 0) × (m.used q ≡ true)
  pub unique : (i j q : ℕ) → owns (pc i) ≡ some q → owns (pc j) ≡ some q → i ≡ j
  pub apart : (i k : ℕ) → k ≤ l.last → owns (pc i) ≢ some (l.at k)
  pub fresh : (i : ℕ) → IsFresh l m (pc i)
