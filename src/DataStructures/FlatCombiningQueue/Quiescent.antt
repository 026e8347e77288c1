-- ===== src/DataStructures/FlatCombiningQueue/Quiescent.antt =====
-- Operations that find the lock free and no other operation announced.
use scal.Prelude.{
  zero, ℕ, suc, ◌<◌, ◌≡◌, List, [], ◌∷◌, ◌++◌, All, set, length, get_or, refl, ap, true, false,
  some, ◌==◌, if◌then◌else◌, arith, length-set, replicate,
}
use scal.DataStructures.SingleList.Refine.{Represents, fifo_dequeue, new_list-Represents}
use scal.Prelude.{All-set, ◌∙◌, subst}
use scal.DataStructures.FlatCombiningQueue.{
  FlatCombiningQueue, enqueue_op, dequeue_op, Operation, idle, scan, new_queue, set_op,
  scan_combine_apply, wait_round, wait, enqueue, dequeue,
}
use scal.DataStructures.FlatCombiningQueue.Serve.{serve_one, IsDone, serve-set, scan-serve}

-- No thread is in an operation, and the list stands for the queue xs.
pub record IsQuiescent (q : FlatCombiningQueue) (xs : List ℕ) : Type 0 where
  pub unlocked : q.global_lock ≡ false
  pub all_done : All IsDone q.operations
  pub represents : Represents q.queue xs

pub get_or-set {ℓ} :
    {A : Type ℓ} (xs : List A) (i : ℕ) (v d : A) → i < length xs → get_or (set xs i v) i d ≡ v
get_or-set [] i v d lt = elim lt [ ]
get_or-set (x ∷ xs) zero v d lt = refl
get_or-set (x ∷ xs) (suc i) v d lt = get_or-set xs i v d (omega arith)

replicate-IsDone : (n : ℕ) → All IsDone (replicate n idle)
replicate-IsDone zero = tt
replicate-IsDone (suc n) = (refl, replicate-IsDone n)

pub new_queue-IsQuiescent : (n : ℕ) → IsQuiescent (new_queue n) []
unfolding new_queue
new_queue-IsQuiescent n = record {
  unlocked = refl;
  all_done = replicate-IsDone n;
  represents = new_list-Represents;
}

-- The queue after thread i has waited with the operation op.
abbrev waited : ℕ → Operation → FlatCombiningQueue → FlatCombiningQueue
waited i op q =
    record (scan_combine_apply
      (record q { operations = set q.operations i op; global_lock = true })) { global_lock = false }

waited-operations :
    (i : ℕ) (op : Operation) (q : FlatCombiningQueue) (xs : List ℕ)
    → i < length q.operations
    → IsQuiescent q xs
    → ((waited i op q).operations ≡ set q.operations i (serve_one op xs).0)
      × Represents (waited i op q).queue (serve_one op xs).1
unfolding scan_combine_apply
waited-operations i op q xs lt quiet =
    let pass = scan-serve (set q.operations i op) q.queue xs quiet.represents in
    let one = serve-set q.operations i op xs lt quiet.all_done in
    (
      pass.0 ∙ ap (λ r. r.0) one,
      subst (λ r. Represents (scan (set q.operations i op) q.queue).1 r.1) one pass.1,
    )

-- An enqueue by any thread returns true after one round of its loop, adds the item at the end of the queue, and
-- leaves the queue quiescent.
pub enqueue-quiescent :
    (fuel i x : ℕ) (q : FlatCombiningQueue) (xs : List ℕ)
    → i < length q.operations
    → IsQuiescent q xs
    → (q' : FlatCombiningQueue) × (enqueue (suc fuel) i x q ≡ some (true, q'))
      × IsQuiescent q' (xs ++ x ∷ [])
      × (length q'.operations ≡ length q.operations)
unfolding enqueue wait wait_round set_op
enqueue-quiescent fuel i x q xs lt quiet =
    let op : Operation = record { opcode = enqueue_op; data_ = x } in
    let w = waited-operations i op q xs lt quiet in
    (
      waited i op q,
      rw quiet.unlocked refl,
      record {
        unlocked = refl;
        all_done = rw w.0 (All-set IsDone q.operations i idle refl quiet.all_done);
        represents = w.1;
      },
      rw w.0 (length-set q.operations i idle),
    )

-- A dequeue by any thread ends after one round of its loop, takes what a first-in first-out queue
-- gives (an item 0 is taken too, but is reported as an empty queue), and leaves the queue quiescent.
pub dequeue-quiescent :
    (fuel i : ℕ) (q : FlatCombiningQueue) (xs : List ℕ)
    → i < length q.operations
    → IsQuiescent q xs
    → (q' : FlatCombiningQueue) × (dequeue (suc fuel) i q
        ≡ some ((if (fifo_dequeue xs).0.1 == 0 then false else true, (fifo_dequeue xs).0.1), q'))
      × IsQuiescent q' (fifo_dequeue xs).1
      × (length q'.operations ≡ length q.operations)
unfolding dequeue wait wait_round set_op
dequeue-quiescent fuel i q xs lt quiet =
    let op : Operation = record { opcode = dequeue_op; data_ = 0 } in
    let served = (serve_one op xs).0 in
    let w = waited-operations i op q xs lt quiet in
    (
      record (waited i op q) { operations = set (waited i op q).operations i idle },
      rw (quiet.unlocked, w.0, get_or-set q.operations i served idle lt) refl,
      record {
        unlocked = refl;
        all_done = rw w.0 (
            All-set IsDone (set q.operations i served) i idle refl
              (All-set IsDone q.operations i served refl quiet.all_done));
        represents = w.1;
      },
      rw w.0 (length-set (set q.operations i served) i idle ∙ length-set q.operations i served),
    )
