-- ===== src/DataStructures/MsQueue/Spec.antt =====
-- The atomic queue that the Michael-Scott queue has to be. An enqueue, and a dequeue of an item,
-- take effect at one instant between call and return. A dequeue that answers `none` changes
-- nothing: it may do so only if the queue was empty at some instant since its call.
use scal.Prelude.{ℕ, ◌≡◌, ◌≢◌, List, [], ◌∷◌, ◌++◌, Option, none, some, Bool, true, false}
use scal.DataStructures.History.{
  Event, History, put_called, put_returned, get_called, get_returned, recorded,
}

-- What a client sees of a thread, with whether the queue was empty during a dequeue.
pub data Status : Type 0 where
  ready : Status
  adding : (x : ℕ) → Status
  added : Status
  taking : (seen : Bool) → Status
  answered : (result : Option ℕ) → Status

pub record Abstract : Type 0 where
  pub queue : List ℕ
  pub status : ℕ → Status

-- What one thread's step may do to the queue, oldest item first, and what its client sees of it.
pub data Act : Status → List ℕ → Option Event → Status → List ℕ → Type 0 where
  stutter : {c : Status} {xs : List ℕ} → Act c xs none c xs
  call_add : {xs : List ℕ} (x : ℕ) → Act ready xs (some (put_called x)) (adding x) xs
  add : {xs : List ℕ} (x : ℕ) → Act (adding x) xs none added (xs ++ x ∷ [])
  return_add : {xs : List ℕ} → Act added xs (some put_returned) ready xs
  call_take : {xs : List ℕ} → Act ready xs (some get_called) (taking false) xs
  observe : {seen : Bool} → Act (taking seen) [] none (taking true) []
  forget : {seen : Bool} {xs : List ℕ} → Act (taking seen) xs none (taking false) xs
  take :
      {seen : Bool} {x : ℕ} {xs : List ℕ} → Act (taking seen) (x ∷ xs) none (answered (some x)) xs
  take_none : {xs : List ℕ} → Act (taking true) xs none (answered none) xs
  return : {r : Option ℕ} {xs : List ℕ} → Act (answered r) xs (some (get_returned r)) ready xs

-- Thread i acts, and the others are left alone.
pub record AbstractStep (a : Abstract) (i : ℕ) (e : Option Event) (b : Abstract) : Type 0 where
  pub act : Act (a.status i) a.queue e (b.status i) b.queue
  pub others : (j : ℕ) → i ≢ j → b.status j ≡ a.status j

abbrev pub empty : Abstract
empty = record { queue = []; status = λ _. ready }

-- The histories of the atomic queue, with the states that they lead to.
pub data Behaviour : History → Abstract → Type 0 where
  nothing : Behaviour [] empty
  more :
      {h : History} {a b : Abstract} {i : ℕ} {e : Option Event}
      → Behaviour h a
      → AbstractStep a i e b
      → Behaviour (recorded i e h) b
