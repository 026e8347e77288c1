-- ===== src/DataStructures/DistributedQueue/Examples.antt =====
-- A pool over two Treiber stacks, while another thread puts an item and a third one takes it.
use scal.Prelude.{
  ℕ, zero, suc, ◌≡◌, ◌<◌, ◌^◌, Bool-cases, inl, inr, false, ◌==◌, if◌then◌else◌, refl, arith,
  next_aba,
}
use scal.DataStructures.TreiberStack.{Shared}
use scal.DataStructures.DistributedQueue.{
  DistributedQueue, found_empty, out_of_fuel, tick, try_one, try_all, check_all, get, empty,
}
use scal.DataStructures.DistributedQueue.Stacks.{
  Stack, treiber, Later, now, Later-trans, put, get_return_empty_state, empty_state,
}
use scal.DataStructures.DistributedQueue.StackLaws.{get-Later, put-Later, get-found_empty_stacks}
use scal.Util.AtomicValue.Wide

abbrev empty_stack : Stack
empty_stack = record {
  mem = record {
    top = record { value = 0; aba = 0 };
    node = λ _. record { next = 0; item = 0 };
    used = λ _. false;
  };
  changes = 0;
}

-- The allocator of the other threads, which has one node to hand out.
abbrev node_5 : Shared → ℕ
node_5 m = 5

-- An item passes through a stack.
abbrev passed : Stack → Stack
passed s = (get_return_empty_state (put node_5 7 s).1).1.1

abbrev visited : Stack → Stack
visited s = if s.mem.used 5 then s else passed s

visited-Later : (s : Stack) → Later s (visited s)
visited-Later s = elim (Bool-cases (s.mem.used 5)) [
  | inl e ↦ rw e now
  | inr e ↦
      rw e (
        Later-trans (put-Later node_5 7 s (λ z. omega (arith, z)) e) (get-Later (put node_5 7 s).1))
]

-- At the second access of the thread that runs, stack 0 is visited.
abbrev visiting : ℕ → (ℕ → Stack) → ℕ → Stack
visiting t bs k = if t == 1 then (if k == 0 then visited (bs k) else bs k) else bs k

visiting-Later : (t : ℕ) (bs : ℕ → Stack) (k : ℕ) → Later (bs k) (visiting t bs k)
visiting-Later t bs k = elim (Bool-cases (t == 1)) [
  | inr e ↦ rw e now
  | inl e ↦ elim (Bool-cases (k == 0)) [
    | inl z ↦ rw (e, z) (visited-Later (bs k))
    | inr z ↦ rw (e, z) now
  ]
]

abbrev two_empty : DistributedQueue (treiber node_5)
two_empty = record { backends = λ _. empty_stack; tails = λ _. 0; clock = 0 }

-- The first round sees that stack 0 has changed, the second one that nothing has.
finds_empty : (get (treiber node_5) visiting 2 2 0 two_empty).0 ≡ found_empty
unfolding get try_all try_one tick check_all get_return_empty_state put empty_state Wide.init
    next_aba
finds_empty = refl

one_round_is_not_enough : (get (treiber node_5) visiting 2 1 0 two_empty).0 ≡ out_of_fuel
unfolding get try_all try_one tick check_all get_return_empty_state put empty_state Wide.init
    next_aba
one_round_is_not_enough = refl

abbrev changes_after : ℕ → ℕ
changes_after k = ((get (treiber node_5) visiting 2 2 0 two_empty).1.backends k).changes

two_changes : (changes_after 0 ≡ 2) × (changes_after 1 ≡ 0)
unfolding get try_all try_one tick check_all get_return_empty_state put empty_state Wide.init
    next_aba
two_changes = (refl, refl)

few_changes : (k : ℕ) → k < 2 → changes_after k < 2 ^ 64
few_changes zero h = omega (arith, two_changes.0)
few_changes (suc zero) h = omega (arith, two_changes.1)
few_changes (suc (suc k)) h = absurd (omega (arith, h))

get-found_empty_stacks_example :
    (last : ℕ) × (r : DistributedQueue (treiber node_5)) × ((k : ℕ)
      → Later (two_empty.backends k) (r.backends k))
    × (check_all
          (treiber node_5)
          visiting
          2
          last
          0
          2
          (try_all (treiber node_5) visiting 2 last 0 2 r).1
        ≡ (empty, (get (treiber node_5) visiting 2 2 0 two_empty).1))
    × ((k : ℕ)
        → k < 2
        → ((try_all (treiber node_5) visiting 2 last 0 2 r).1.backends k).mem.top.value ≡ 0)
get-found_empty_stacks_example =
    get-found_empty_stacks node_5 visiting visiting-Later 2 2 0 two_empty (omega arith) few_changes
      finds_empty
