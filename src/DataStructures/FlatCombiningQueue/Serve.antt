-- ===== src/DataStructures/FlatCombiningQueue/Serve.antt =====
-- A pass over the slots serves them from a first-in first-out queue.
use scal.Prelude.{ℕ, suc, zero, ◌<◌, ◌≡◌, List, [], ◌∷◌, ◌++◌, All, set, length, refl, ap₂, arith}
use scal.DataStructures.SingleList.{SingleList}
use scal.DataStructures.SingleList.Refine.{
  Represents, fifo_dequeue, enqueue-Represents, dequeue-Represents, is_empty-Represents,
}
use scal.DataStructures.FlatCombiningQueue.{
  Opcode, done, enqueue_op, dequeue_op, Operation, idle, apply, scan,
}

-- What a slot holds after it was served from the queue xs, and the queue then.
abbrev pub serve_one : Operation → List ℕ → Operation × List ℕ
serve_one op xs = elim op.opcode [
  | done ↦ (op, xs)
  | enqueue_op ↦ (idle, xs ++ op.data_ ∷ [])
  | dequeue_op ↦ (record { opcode = done; data_ = (fifo_dequeue xs).0.1 }, (fifo_dequeue xs).1)
]

abbrev pub serve : List Operation → List ℕ → List Operation × List ℕ
serve [] xs = ([], xs)
serve (op ∷ ops) xs =
    let (op', xs') = serve_one op xs in let (ops', xs'') = serve ops xs' in (op' ∷ ops', xs'')

abbrev pub IsDone : Operation → Type 0
IsDone op = op.opcode ≡ done

apply-dequeue :
    (item : ℕ) (q : SingleList) (xs : List ℕ)
    → Represents q xs
    → ((apply (record { opcode = dequeue_op; data_ = item }) q).0
        ≡ (serve_one (record { opcode = dequeue_op; data_ = item }) xs).0)
      × Represents (apply (record { opcode = dequeue_op; data_ = item }) q).1 (fifo_dequeue xs).1
unfolding apply
apply-dequeue item q [] r = rw (is_empty-Represents q [] r) (refl, r)
apply-dequeue item q (x ∷ xs) r =
    let d = dequeue-Represents q (x ∷ xs) r in
    rw (is_empty-Represents q (x ∷ xs) r, d.0) (refl, d.1)

apply-serve_code :
    (code : Opcode) (item : ℕ) (q : SingleList) (xs : List ℕ)
    → let op : Operation = record { opcode = code; data_ = item } in
      Represents q xs
      → ((apply op q).0 ≡ (serve_one op xs).0) × Represents (apply op q).1 (serve_one op xs).1
unfolding apply
apply-serve_code done item q xs r = (refl, r)
apply-serve_code enqueue_op item q xs r = (refl, enqueue-Represents item q xs r)
apply-serve_code dequeue_op item q xs r = apply-dequeue item q xs r

pub apply-serve_one :
    (op : Operation) (q : SingleList) (xs : List ℕ)
    → Represents q xs
    → ((apply op q).0 ≡ (serve_one op xs).0) × Represents (apply op q).1 (serve_one op xs).1
apply-serve_one op q xs r = apply-serve_code op.opcode op.data_ q xs r

serve_code-IsDone :
    (code : Opcode) (item : ℕ) (xs : List ℕ)
    → IsDone (serve_one (record { opcode = code; data_ = item }) xs).0
serve_code-IsDone done item xs = refl
serve_code-IsDone enqueue_op item xs = refl
serve_code-IsDone dequeue_op item xs = refl

serve_one-IsDone : (op : Operation) (xs : List ℕ) → IsDone (serve_one op xs).0
serve_one-IsDone op xs = serve_code-IsDone op.opcode op.data_ xs

serve-IsDone : (ops : List Operation) (xs : List ℕ) → All IsDone (serve ops xs).0
serve-IsDone [] xs = tt
serve-IsDone (op ∷ ops) xs = (serve_one-IsDone op xs, serve-IsDone ops (serve_one op xs).1)

-- With the linked list standing for the queue xs, a pass leaves in the slots, and in the list, what
-- serving the slots one after the other from xs leaves; and every slot is done then.
pub scan-serve :
    (ops : List Operation) (q : SingleList) (xs : List ℕ)
    → Represents q xs
    → ((scan ops q).0 ≡ (serve ops xs).0)
      × Represents (scan ops q).1 (serve ops xs).1
      × All IsDone (scan ops q).0
unfolding scan
scan-serve [] q xs r = (refl, r, tt)
scan-serve (op ∷ ops) q xs r =
    let here = apply-serve_one op q xs r in
    let rest = scan-serve ops (apply op q).1 (serve_one op xs).1 here.1 in
    (ap₂ (λ a b. a ∷ b) here.0 rest.0, rest.1, (rw here.0 (serve_one-IsDone op xs), rest.2))

serve_one-done : (op : Operation) (xs : List ℕ) → IsDone op → serve_one op xs ≡ (op, xs)
serve_one-done op xs h = ground arith

serve-done : (ops : List Operation) (xs : List ℕ) → All IsDone ops → serve ops xs ≡ (ops, xs)
serve-done [] xs h = refl
serve-done (op ∷ ops) xs h = simp (serve_one-done op xs h.0, serve-done ops xs h.1)

-- A pass that finds one announced operation serves that one.
pub serve-set :
    (ops : List Operation) (i : ℕ) (op : Operation) (xs : List ℕ)
    → i < length ops
    → All IsDone ops
    → serve (set ops i op) xs ≡ (set ops i (serve_one op xs).0, (serve_one op xs).1)
serve-set [] i op xs lt h = elim lt [ ]
serve-set (o ∷ ops) zero op xs lt h = rw (serve-done ops (serve_one op xs).1 h.1) refl
serve-set (o ∷ ops) (suc i) op xs lt h =
    simp (serve_one-done o xs h.0, serve-set ops i op xs (omega arith) h.1)
