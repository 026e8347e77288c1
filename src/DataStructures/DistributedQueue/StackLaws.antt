-- ===== src/DataStructures/DistributedQueue/StackLaws.antt =====
-- src/datastructures/distributed_queue.h over Treiber stacks: the laws of a backend, for the stack, and
-- what they say of the pool.
use scal.Prelude.{
  ℕ, ◌%◌, ◌^◌, ◌<◌, ◌≡◌, ◌≢◌, false, none, Bool-cases, inl, inr, refl, ap, ◌∙◌, arith, ==_iff, ◌==◌,
}
use scal.DataStructures.TreiberStack.{Shared, Move}
use scal.DataStructures.DistributedQueue.{
  DistributedQueue, found_empty, get, try_all, check_all, empty,
}
use scal.DataStructures.DistributedQueue.FirstLoop.{Laws}
use scal.DataStructures.DistributedQueue.Observed.{get-found_empty}
use scal.DataStructures.DistributedQueue.Stacks.{
  Stack, empty_state, get_return_empty_state, put, treiber, count, Later, now, moved, Later-trans,
  Later_lem,
}
use scal.Util.AtomicValue.Wide

-- A call of `get_return_empty_state` is a run of moves.
pub get-Later : (s : Stack) → Later s (get_return_empty_state s).1.1
unfolding get_return_empty_state count
get-Later s = elim (Bool-cases (s.mem.top.value == 0)) [
  | inl e ↦ rw (e, get_return_empty_state) now
  | inr e ↦
      rw (e, get_return_empty_state)
        (moved
          (moved (moved now (Move.load_some (λ z. ground (arith, e, z))))
            (Move.load_next {top_old = s.mem.top}))
          (Move.pop_wins refl))
]

-- So is a call of `put`, when the allocator hands out an address that is not in use.
pub put-Later :
    (tlget : Shared → ℕ) (x : ℕ) (s : Stack)
    → tlget s.mem ≢ 0
    → s.mem.used (tlget s.mem) ≡ false
    → Later s (put tlget x s).1
unfolding put count
put-Later tlget x s ne un =
    let n = tlget s.mem in
    let called = moved now (Move.call_push x ne un) in
    let linked =
      moved (moved called (Move.load_top {n = n} {x = x}))
        (Move.link {n = n} {x = x} {top_old = s.mem.top}) in
    moved linked (Move.push_wins {n = n} {x = x} refl)

get-none :
    (s : Stack)
    → (get_return_empty_state s).0 ≡ none
    → (s.mem.top.value ≡ 0) × ((get_return_empty_state s).1.0 ≡ empty_state s)
unfolding get_return_empty_state
get-none s h = elim (Bool-cases (s.mem.top.value == 0)) [
  | inl e ↦ rw (e, get_return_empty_state) ((==_iff s.mem.top.value 0).0 e, refl)
  | inr e ↦ absurd (ground (arith, e, h))
]

-- A stack that has been changed less than 2^64 times shows the word of an empty one again only if it
-- has not been changed since.
empty_state-unchanged :
    {s u v : Stack}
    → Later s u
    → Later u v
    → v.changes < 2 ^ 64
    → empty_state s ≡ empty_state v
    → s.mem.top.value ≡ 0
    → u.mem.top.value ≡ 0
unfolding empty_state Wide.init Wide.weak_set_value Wide.weak_set_aba
empty_state-unchanged {s} {u} {v} l k young same null =
    let before = Later_lem l in
    let after = Later_lem (Later-trans l k) in
    let aba : s.mem.top.aba % 2 ^ 64 ≡ v.mem.top.aba % 2 ^ 64 = omega (arith, same, null) in
    let none_since : s.changes ≡ v.changes = omega (arith, aba, after.0, after.1, young) in
    ap (λ c. c.value) (before.2 (omega (arith, before.0, (Later_lem k).0, none_since))) ∙ null

abbrev treiber_laws : (tlget : Shared → ℕ) → Laws (treiber tlget)
treiber_laws tlget = record {
  Later = λ s u. Later s u;
  IsEmpty = λ s. s.mem.top.value ≡ 0;
  IsYoung = λ s. s.changes < 2 ^ 64;
  later_refl = λ s. now;
  later_trans = λ l k. Later-trans l k;
  later_get = get-Later;
  get_none = get-none;
  young_before = λ l y. omega (arith, (Later_lem l).0, y);
  unchanged = empty_state-unchanged;
}

module _ (tlget : Shared → ℕ) (interference : ℕ → (ℕ → Stack) → ℕ → Stack)
    (acts : (t : ℕ) (bs : ℕ → Stack) (k : ℕ) → Later (bs k) (interference t bs k)) (n : ℕ) where
  -- The pool over n Treiber stacks, when before each access to a stack the other threads do to all of
  -- them whatever the moves of TreiberStack make possible, and a pass begins at any index in range: if
  -- `get` answers that the pool is empty, then in its last round, between the loop that has tried all
  -- stacks and the one that has found none changed, all the stacks were empty at once, their tops NULL.
  -- The round begins with stacks that the moves make of those at the call, and ends the call. The
  -- condition is that by the return each stack has been changed fewer than 2^64 times since its
  -- constructor, so that its counter has not wrapped around.
  pub get-found_empty_stacks :
      (fuel start : ℕ) (q : DistributedQueue (treiber tlget))
      → start < n
      → ((k : ℕ)
          → k < n
          → ((get (treiber tlget) interference n fuel start q).1.backends k).changes < 2 ^ 64)
      → (get (treiber tlget) interference n fuel start q).0 ≡ found_empty
      → (last : ℕ) × (r : DistributedQueue (treiber tlget)) × ((k : ℕ)
          → Later (q.backends k) (r.backends k))
        × (check_all
              (treiber tlget)
              interference
              n
              last
              0
              n
              (try_all (treiber tlget) interference n last 0 n r).1
            ≡ (empty, (get (treiber tlget) interference n fuel start q).1))
        × ((k : ℕ)
            → k < n
            → ((try_all (treiber tlget) interference n last 0 n r).1.backends k).mem.top.value ≡ 0)
  get-found_empty_stacks = get-found_empty (treiber tlget) (treiber_laws tlget) interference acts n
