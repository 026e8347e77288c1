-- ===== src/DataStructures/UnboundedSizeKFifo/Examples.antt =====
-- A queue of segments of two slots, and the theorems about it.
use scal.Prelude.{ℕ, ◌≡◌, ◌⊎◌, true, Option, [], ◌∷◌, refl, arith, Cell}
use scal.DataStructures.UnboundedSizeKFifo.{
  UnboundedSizeKFifo, new_queue, enqueue, dequeue, done, committed,
}
use scal.DataStructures.UnboundedSizeKFifo.Commit.{Stays, TakenBack, uskfifo_commit}
use scal.DataStructures.UnboundedSizeKFifo.Chain.{IsKFifo}
use scal.DataStructures.UnboundedSizeKFifo.Enqueue.{EnqueueEnds, uskfifo-EnqueueEnds}
use scal.DataStructures.UnboundedSizeKFifo.Ends.{DequeueEnds, uskfifo-DequeueEnds}

abbrev two : UnboundedSizeKFifo
two = new_queue 2

two-IsKFifo : IsKFifo two []
unfolding new_queue
two-IsKFifo = record {
  linked = refl;
  last = refl;
  live = refl;
  present = omega arith;
  room = omega arith;
  positive = omega arith;
}

abbrev no_rand : ℕ → ℕ
no_rand i = 0

uskfifo-EnqueueEnds_example :
    (q' : UnboundedSizeKFifo) × (enqueue no_rand 2 7 two ≡ done true q') × EnqueueEnds two [] 7 q'
uskfifo-EnqueueEnds_example = uskfifo-EnqueueEnds no_rand 7 0 two [] (omega arith) two-IsKFifo

uskfifo-DequeueEnds_example :
    (r : Option ℕ) × (q' : UnboundedSizeKFifo) × (dequeue no_rand 1 two ≡ done r q')
    × DequeueEnds two (two.head.value ∷ []) r q'
uskfifo-DequeueEnds_example = uskfifo-DequeueEnds no_rand 1 two [] two-IsKFifo (omega arith)

abbrev word : ℕ → Cell
word x = record { value = x; aba = 0 }

uskfifo_commit_example :
    Stays two 1 0 (word 5) (committed (word 1) (word 5) 0 two)
    ⊎ TakenBack two 1 0 (word 5) (committed (word 1) (word 5) 0 two)
uskfifo_commit_example = uskfifo_commit (word 1) (word 5) 0 two
