-- ===== src/DataStructures/TreiberStack/Examples.antt =====
-- A run of two threads on one Treiber stack: one pushes, and the other pops what it pushed.
use scal.Prelude.{ℕ, ◌≡◌, refl, List, [], ◌∷◌, some, arith, next_aba}
use scal.DataStructures.TreiberStack.{
  Shared, Pc, Move, System, step, Reach, start, later, init, event,
}
use scal.DataStructures.History.{
  History, recorded, put_called, put_returned, get_called, get_returned,
}
use scal.DataStructures.TreiberStack.Invariant.{Inv}
use scal.DataStructures.TreiberStack.Linearizable.{view, treiber_linearizable}
use scal.DataStructures.TreiberStack.Spec.{Behaviour}

record Run : Type 0 where
  history : History
  last : System
  reach : Reach history last

abbrev go : (r : Run) (i : ℕ) {m : Shared} {p : Pc} → Move r.last.mem (r.last.pc i) m p → Run
go r i {m} {p} mv = record {
  history = recorded i (event mv) r.history;
  last = _;
  reach = later r.reach (step i mv);
}

abbrev fresh_run : Run
fresh_run = record { history = []; last = init; reach = start }

abbrev pushing : Run
pushing =
    go (go (go fresh_run 0 (Move.call_push {n = 1} 7 (λ e. omega arith) refl)) 0 Move.load_top) 0
      Move.link

abbrev pushed : Run
pushed = go pushing 0 (Move.push_wins refl)

abbrev taken : Run
taken =
    go (go (go (go pushed 1 Move.call_pop) 1 (Move.load_some (λ e. omega arith))) 1 Move.load_next)
      1 (Move.pop_wins refl)

abbrev returning : Run
returning = go (go taken 1 Move.load_item) 1 Move.return

-- The item that was pushed is what the pop answers.
two_threads :
    (returning.history
      ≡ (1, get_returned (some 7)) ∷ (1, get_called) ∷ (0, put_returned) ∷ (0, put_called 7) ∷ [])
    × (returning.last.mem.top ≡ record { value = 0; aba = 2 })
unfolding next_aba
two_threads = (refl, refl)

treiber_linearizable_example :
    (ps : List ℕ) × Inv returning.last.mem returning.last.pc ps
    × Behaviour
        ((1, get_returned (some 7)) ∷ (1, get_called) ∷ (0, put_returned) ∷ (0, put_called 7) ∷ [])
        (view returning.last ps)
treiber_linearizable_example = treiber_linearizable returning.reach
