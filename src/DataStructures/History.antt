-- ===== src/DataStructures/History.antt =====
-- The histories of src/datastructures/pool.h: the calls and the answers of all threads, in the order in
-- which they happen, the latest one first. An answer `none` is the answer false of `get`.
use scal.Prelude.{ℕ, Option, none, some, List, ◌∷◌}

pub data Event : Type 0 where
  put_called : (item : ℕ) → Event
  put_returned : Event
  get_called : Event
  get_returned : (result : Option ℕ) → Event

abbrev pub History : Type 0
History = List (ℕ × Event)

-- What a step of thread i adds to a history: its call or its answer, or nothing.
abbrev pub recorded : (i : ℕ) → Option Event → History → History
recorded i none h = h
recorded i (some e) h = (i, e) ∷ h
