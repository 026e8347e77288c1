-- ===== src/DataStructures/SingleList/Refine.antt =====
-- The linked list is a queue.
use scal.Prelude.{ℕ, ◌<◌, ◌≡◌, List, [], ◌∷◌, ◌++◌, true, false, arith, refl, ap, Bool}
use scal.DataStructures.SingleList.{
  SingleList, Answer, new_list, is_empty, enqueue, dequeue, Call, call_enqueue, call_dequeue,
  call_is_empty, run,
}
use scal.DataStructures.SingleList.Linked.{Chain, Chain-ends, Chain-no_ends, link-Chain}

-- The list q stands for the queue xs, oldest item first.
pub record Represents (q : SingleList) (xs : List ℕ) : Type 0 where
  pub linked : Chain q.heap q.head q.tail xs
  pub room : q.tail < q.allocated

-- What a queue answers.
abbrev pub fifo_dequeue : List ℕ → Answer × List ℕ
fifo_dequeue [] = ((false, 0), [])
fifo_dequeue (x ∷ xs) = ((true, x), xs)

abbrev pub fifo_is_empty : List ℕ → Bool
fifo_is_empty [] = true
fifo_is_empty (x ∷ xs) = false

abbrev pub fifo_run : List Call → List ℕ → List Answer × List ℕ
fifo_run [] xs = ([], xs)
fifo_run (call_enqueue x ∷ calls) xs =
    let (answers, end) = fifo_run calls (xs ++ x ∷ []) in ((true, 0) ∷ answers, end)
fifo_run (call_dequeue ∷ calls) xs =
    let (answers, end) = fifo_run calls (fifo_dequeue xs).1 in ((fifo_dequeue xs).0 ∷ answers, end)
fifo_run (call_is_empty ∷ calls) xs =
    let (answers, end) = fifo_run calls xs in ((fifo_is_empty xs, 0) ∷ answers, end)

pub new_list-Represents : Represents new_list []
unfolding new_list
new_list-Represents = record { linked = refl; room = omega arith }

pub enqueue-Represents :
    (x : ℕ) (q : SingleList) (xs : List ℕ)
    → Represents q xs
    → Represents (enqueue x q).1 (xs ++ x ∷ [])
unfolding enqueue
enqueue-Represents x q xs r = record {
  linked = link-Chain q.heap q.head q.tail q.allocated x xs r.room r.linked;
  room = omega arith;
}

pub enqueue-answer : (x : ℕ) (q : SingleList) → (enqueue x q).0 ≡ (true, 0)
unfolding enqueue
enqueue-answer x q = refl

pub dequeue-Represents :
    (q : SingleList) (xs : List ℕ)
    → Represents q xs
    → ((dequeue q).0 ≡ (fifo_dequeue xs).0) × Represents (dequeue q).1 (fifo_dequeue xs).1
unfolding dequeue
dequeue-Represents q [] r = rw (Chain-no_ends q.heap q.head q.tail r.linked) (refl, r)
dequeue-Represents q (x ∷ xs) r =
    rw (Chain-ends q.heap q.head q.tail x xs r.linked)
      (ap (λ v. (true, v)) r.linked.1, record { linked = r.linked.2; room = r.room })

pub is_empty-Represents :
    (q : SingleList) (xs : List ℕ) → Represents q xs → is_empty q ≡ fifo_is_empty xs
unfolding is_empty
is_empty-Represents q [] r = rw (Chain-no_ends q.heap q.head q.tail r.linked) refl
is_empty-Represents q (x ∷ xs) r = rw (Chain-ends q.heap q.head q.tail x xs r.linked) refl

run-Represents :
    (calls : List Call) (q : SingleList) (xs : List ℕ)
    → Represents q xs
    → ((run calls q).0 ≡ (fifo_run calls xs).0) × Represents (run calls q).1 (fifo_run calls xs).1
unfolding run
run-Represents [] q xs r = (refl, r)
run-Represents (call_enqueue x ∷ calls) q xs r =
    let ih = run-Represents calls (enqueue x q).1 (xs ++ x ∷ []) (enqueue-Represents x q xs r) in
    (rw (ih.0, enqueue-answer x q), ih.1)
run-Represents (call_dequeue ∷ calls) q xs r =
    let d = dequeue-Represents q xs r in
    let ih = run-Represents calls (dequeue q).1 (fifo_dequeue xs).1 d.1 in (rw (ih.0, d.0), ih.1)
run-Represents (call_is_empty ∷ calls) q xs r =
    let ih = run-Represents calls q xs r in (rw (ih.0, is_empty-Represents q xs r), ih.1)

-- Whatever calls a client makes on a new list, the answers are those of a first-in first-out queue
-- that begins empty.
pub single_list_refines : (calls : List Call) → (run calls new_list).0 ≡ (fifo_run calls []).0
single_list_refines calls = (run-Represents calls new_list [] new_list-Represents).0
