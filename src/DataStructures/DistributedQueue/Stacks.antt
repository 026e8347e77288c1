-- ===== src/DataStructures/DistributedQueue/Stacks.antt =====
-- src/datastructures/treiber_stack.h as the backend of a pool: `put`, `empty_state` and
-- `get_return_empty_state`, with src/util/atomic_value128.h for the word that `raw` reads.
--
-- A call is modelled by the round whose exchange succeeds: a round whose exchange fails changes
-- nothing of the shared memory but the caller's own node, and the other threads act before the call.
-- `tlget` is the allocator.
use scal.Prelude.{
  ℕ, suc, ◌+◌, ◌-◌, ◌%◌, ◌^◌, ◌≤◌, ◌≡◌, ◌⊎◌, inl, inr, Bool, true, Option, none, some, ◌==◌,
  if◌then◌else◌, update, next_aba, refl, sym, ap, ◌∙◌, arith,
}
use scal.DataStructures.TreiberStack.{Shared, Pc, Move, pushed_top}
use scal.DataStructures.DistributedQueue.{Backend}
use scal.Util.AtomicValue.Wide

-- The memory, with the number of successful exchanges since the constructor, which the code does not
-- keep: its counter goes back to 0 after 2^64 of them.
pub record Stack : Type 0 where
  pub mem : Shared
  pub changes : ℕ

unfoldable pub empty_state : Stack → ℕ
unfolding Wide.init
empty_state s = Wide.init s.mem.top.value s.mem.top.aba

unfoldable pub get_return_empty_state : Stack → Option ℕ × (ℕ × Stack)
unfolding empty_state
get_return_empty_state s =
    let top_old = s.mem.top in
    let n = s.mem.node top_old.value in
    if top_old.value == 0 then (none, (empty_state s, s)) else (
      some n.item,
      (
        empty_state s,
        record { mem = record s.mem { top = pushed_top n.next top_old }; changes = suc s.changes },
      ),
    )

unfoldable pub put : (tlget : Shared → ℕ) (item : ℕ) → Stack → Bool × Stack
put tlget item s =
    let n = tlget s.mem in
    let written = update s.mem.node n (record { next = 0; item = item }) in
    (
      true,
      record {
        mem = record {
          top = pushed_top n s.mem.top;
          node = update written n (record { next = s.mem.top.value; item = (written n).item });
          used = update s.mem.used n true;
        };
        changes = suc s.changes;
      },
    )

abbrev pub treiber : (Shared → ℕ) → Backend
treiber tlget = record {
  State = Stack;
  put = put tlget;
  get_return_empty_state = get_return_empty_state;
  empty_state = empty_state;
}

-- The number of changes after a move: the moves whose exchange of the top succeeds add one.
unfoldable pub count : {m m' : Shared} {p p' : Pc} → Move m p m' p' → ℕ → ℕ
count (Move.push_wins g) c = suc c
count (Move.pop_wins g) c = suc c
count mv c = c

-- What any number of threads make of the stack, by the moves of TreiberStack. A thread may stand
-- anywhere in its code.
pub data Later (s : Stack) : Stack → Type 0 where
  now : Later s s
  moved :
      {u : Stack} {m : Shared} {p p' : Pc}
      → Later s u
      → (mv : Move u.mem p m p') → Later s (record { mem = m; changes = count mv u.changes })

pub Later-trans : {s u v : Stack} → Later s u → Later u v → Later s v
Later-trans l now = l
Later-trans l (moved k mv) = moved (Later-trans l k) mv

top_exchanged :
    {m m' : Shared} {p p' : Pc} (mv : Move m p m' p') (c : ℕ)
    → ((count mv c ≡ c) × (m'.top ≡ m.top))
      ⊎ ((count mv c ≡ suc c) × (m'.top.aba ≡ next_aba m.top.aba))
unfolding count
top_exchanged (Move.call_push x ne un) c = inl (refl, refl)
top_exchanged Move.load_top c = inl (refl, refl)
top_exchanged Move.link c = inl (refl, refl)
top_exchanged (Move.push_wins g) c = inr (refl, ap (λ d. next_aba d.aba) (sym g))
top_exchanged (Move.push_loses g) c = inl (refl, refl)
top_exchanged Move.call_pop c = inl (refl, refl)
top_exchanged (Move.load_empty e) c = inl (refl, refl)
top_exchanged (Move.load_some e) c = inl (refl, refl)
top_exchanged Move.load_next c = inl (refl, refl)
top_exchanged (Move.pop_wins g) c = inr (refl, ap (λ d. next_aba d.aba) (sym g))
top_exchanged (Move.pop_loses g) c = inl (refl, refl)
top_exchanged Move.load_item c = inl (refl, refl)
top_exchanged Move.return c = inl (refl, refl)
top_exchanged Move.return_empty c = inl (refl, refl)

-- The counter tells the number of changes up to its wrap-around, and no change leaves the top.
pub Later_lem :
    {s u : Stack}
    → Later s u
    → (s.changes ≤ u.changes)
      × (u.mem.top.aba % 2 ^ 64 ≡ (s.mem.top.aba + (u.changes - s.changes)) % 2 ^ 64)
      × (s.changes ≡ u.changes → u.mem.top ≡ s.mem.top)
unfolding next_aba
Later_lem now = (omega arith, omega arith, λ e. refl)
Later_lem (moved {u} k mv) =
    let h = Later_lem k in
    elim (top_exchanged mv u.changes) [
      | inl quiet ↦ (
        omega (arith, h.0, quiet.0),
        ap (λ c. c.aba % 2 ^ 64) quiet.1 ∙ (omega (arith, h.0, h.1, quiet.0)),
        λ e. quiet.1 ∙ h.2 (omega (arith, quiet.0, e)),
      )
      | inr changed ↦ (
        omega (arith, h.0, changed.0),
        omega (arith, h.0, h.1, changed.0, changed.1),
        λ e. absurd (omega (arith, h.0, changed.0, e)),
      )
    ]
