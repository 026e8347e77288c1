-- ===== src/DataStructures/TreiberStack/Spec.antt =====
-- The atomic stack that the Treiber stack has to be: every operation takes effect at one instant
-- between its call and its return.
use scal.Prelude.{ℕ, ◌≡◌, ◌≢◌, List, [], ◌∷◌, Option, none, some}
use scal.DataStructures.History.{
  Event, History, put_called, put_returned, get_called, get_returned, recorded,
}

-- What a client sees of a thread.
pub data Status : Type 0 where
  ready : Status
  pushing : (x : ℕ) → Status
  popping : Status
  answered : (result : Option ℕ) → Status

pub record Abstract : Type 0 where
  pub stack : List ℕ
  pub status : ℕ → Status

-- What one thread's step may do to the stack, and what its client sees of it.
pub data Act : Status → List ℕ → Option Event → Status → List ℕ → Type 0 where
  stutter : {c : Status} {xs : List ℕ} → Act c xs none c xs
  call_push : {xs : List ℕ} (x : ℕ) → Act ready xs (some (put_called x)) (pushing x) xs
  push : {xs : List ℕ} (x : ℕ) → Act (pushing x) xs (some put_returned) ready (x ∷ xs)
  call_pop : {xs : List ℕ} → Act ready xs (some get_called) popping xs
  pop : {x : ℕ} {xs : List ℕ} → Act popping (x ∷ xs) none (answered (some x)) xs
  pop_empty : Act popping [] none (answered none) []
  return : {r : Option ℕ} {xs : List ℕ} → Act (answered r) xs (some (get_returned r)) ready xs

-- Thread i acts, and the others are left alone.
pub record AbstractStep (a : Abstract) (i : ℕ) (e : Option Event) (b : Abstract) : Type 0 where
  pub act : Act (a.status i) a.stack e (b.status i) b.stack
  pub others : (j : ℕ) → i ≢ j → b.status j ≡ a.status j

abbrev pub empty : Abstract
empty = record { stack = []; status = λ _. ready }

-- The histories of the atomic stack, with the states that they lead to.
pub data Behaviour : History → Abstract → Type 0 where
  nothing : Behaviour [] empty
  more :
      {h : History} {a b : Abstract} {i : ℕ} {e : Option Event}
      → Behaviour h a
      → AbstractStep a i e b
      → Behaviour (recorded i e h) b
