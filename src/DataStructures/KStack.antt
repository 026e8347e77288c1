-- ===== src/DataStructures/KStack.antt =====
-- src/datastructures/kstack.h: the k-stack, a linked stack of segments of k slots. Each function is
-- run by one thread without interference, with every test and exchange of the source; in `committed`
-- the other threads may act before each access. Memory is a function from addresses to segments, an allocation returns the
-- least address that was not handed out, and 0 is NULL. What `pseudorand` returns is an argument.
-- Items are uint64_t.
pub mod Empty
pub mod Rounds
pub mod Commit
pub mod Pop
pub mod Ends
pub mod PushEnds
mod Examples
use scal.Prelude.{
  ℕ, zero, suc, ◌+◌, ◌-◌, ◌%◌, ◌^◌, Bool, true, false, not, Option, none, some, ◌==◌, if◌then◌else◌,
  update, Cell, same, next_aba,
}
use scal.DataStructures.KSegment.{Round, returns, again, emptied, filled, find_index as search}

pub record KSegment : Type 0 where
  pub remove : ℕ
  pub next : Cell
  pub items : ℕ → Cell

-- With `item_records_` of the thread that runs.
pub record KStack : Type 0 where
  pub segments : ℕ → KSegment
  pub allocated : ℕ
  pub top : Cell
  pub item_records : ℕ → Cell
  pub k : ℕ

abbrev pub zero_cell : Cell
zero_cell = record { value = 0; aba = 0 }

-- `KSegment::KSegment`, with the next segment that is set afterwards.
abbrev pub new_segment : ℕ → KSegment
new_segment next = record {
  remove = 0;
  next = record { value = next; aba = 0 };
  items = λ _. zero_cell;
}

-- `KStack::KStack`
unfoldable pub new_stack : ℕ → KStack
new_stack k = record {
  segments = λ _. new_segment 0;
  allocated = 2;
  top = record { value = 1; aba = 0 };
  item_records = λ _. zero_cell;
  k = k;
}

-- The first loop of `is_empty`: whether it ends, with the words that it has recorded.
unfoldable pub record_items : (ℕ → Cell) → (k random i left : ℕ) → (ℕ → Cell) → Bool × (ℕ → Cell)
record_items items k random i zero records = (true, records)
record_items items k random i (suc left) records =
    let index = (random % k + i) % k in
    let item_old = items index in
    let rest = record_items items k random (suc i) left (update records index item_old) in
    if not (item_old.value == 0) then (false, records) else rest

-- The second loop of `is_empty`.
unfoldable pub compare_items : (ℕ → Cell) → (k random i left : ℕ) → (ℕ → Cell) → Bool
compare_items items k random i zero records = true
compare_items items k random i (suc left) records =
    let index = (random % k + i) % k in
    let rest = compare_items items k random (suc i) left records in
    if not (same (items index) (records index)) then false else rest

unfoldable pub is_empty : (segment random : ℕ) → KStack → Bool × KStack
is_empty segment random q =
    let items = (q.segments segment).items in
    let (ends, records) = record_items items q.k random 0 q.k q.item_records in
    let q' = record q { item_records = records } in
    (if ends then compare_items items q.k random 0 q.k records else false, q')

unfoldable pub try_add_new_ksegment : Cell → KStack → KStack
try_add_new_ksegment top_old q =
    if same q.top top_old
    then record q {
      segments = update q.segments q.allocated (new_segment top_old.value);
      allocated = q.allocated + 1;
      top = record { value = q.allocated; aba = top_old.aba };
    }
    else q

-- `__sync_fetch_and_add(segment->remove, n)`, where n is 1 or 2 ^ 64 - 1.
abbrev pub add_remove : (segment n : ℕ) → KStack → KStack
add_remove segment n q =
    let s = q.segments segment in
    record q {
      segments = update q.segments segment (record s { remove = (s.remove + n) % 2 ^ 64 });
    }

unfoldable pub try_remove_ksegment : (random : ℕ) → Cell → KStack → KStack
try_remove_ksegment random top_old q =
    let next = (q.segments q.top.value).next in
    let q₁ = add_remove top_old.value 1 q in
    let (bare, q₂) = is_empty top_old.value random q₁ in
    let top_new : Cell = record {
      value = (q₂.segments top_old.value).next.value;
      aba = next_aba top_old.aba;
    } in
    let undone = add_remove top_old.value (2 ^ 64 - 1) q₂ in
    if not (same q.top top_old)
    then q
    else if next.value == 0
    then q
    else if not bare
    then undone
    else if same q₂.top top_old
    then record q₂ { top = top_new }
    else undone

-- `segment->items[index]->cas(expected, newcp)`
abbrev pub cas_item : (segment index : ℕ) → Cell → Cell → KStack → Bool × KStack
cas_item segment index expected newcp q =
    let s = q.segments segment in
    if same (s.items index) expected
    then (
      true,
      record q {
        segments = update q.segments segment (record s { items = update s.items index newcp });
      },
    )
    else (false, q)

-- Taking the item back; the commit has failed if the exchange succeeds.
abbrev pub take_back : (segment index : ℕ) → Cell → KStack → Bool × KStack
take_back segment index item_new q =
    let (won, q') = cas_item segment index item_new (emptied item_new) q in (not won, q')

-- `act i` is what the other threads do before the i-th access of a call.
unfoldable pub committed :
    (act : ℕ → KStack → KStack) → Cell → Cell → (index : ℕ) → KStack → Bool × KStack
committed act top_old item_new index q =
    let segment = top_old.value in
    let top_new : Cell = record { value = segment; aba = next_aba top_old.aba } in
    let q₁ = act 0 q in
    let q₂ = act 1 q₁ in
    let q₃ = act 2 q₂ in
    let q₄ = act 3 q₃ in
    let q₅ = act 4 q₄ in
    let q₆ = act 5 q₅ in
    if not (same ((q₁.segments segment).items index) item_new)
    then (true, q₁)
    else if (q₂.segments segment).remove == 0
    then (true, q₂)
    else if (q₃.segments segment).remove == 0
    then (false, q₃)
    else if not (same q₄.top top_old)
    then take_back segment index item_new q₅
    else if same q₅.top top_old
    then (true, record q₅ { top = top_new })
    else take_back segment index item_new q₆

-- No other thread acts.
abbrev pub alone : ℕ → KStack → KStack
alone i q = q

unfoldable pub find_index : (segment random : ℕ) → Bool → KStack → Option (ℕ × Cell)
find_index segment random empty q = search (q.segments segment).items q.k random empty

-- A round of `push`; it returns true.
unfoldable pub push_round : (item random : ℕ) → KStack → Round KStack Bool
push_round item random q =
    let top_old = q.top in
    elim (find_index top_old.value random true q) [
      | some (index, item_old) ↦
          let item_new = filled item item_old in
          let (won, q') = cas_item top_old.value index item_old item_new q in
          let (done, q'') = committed alone top_old item_new index q' in
          if not (same q.top top_old)
          then again q
          else if not won
          then again q'
          else if done
          then returns true q''
          else again q''
      | none ↦ again (if same q.top top_old then try_add_new_ksegment top_old q else q)
    ]

-- A round of `pop`: the item, or `none` for false.
unfoldable pub pop_round : (random random' : ℕ) → KStack → Round KStack (Option ℕ)
pop_round random random' q =
    let top_old = q.top in
    elim (find_index top_old.value random false q) [
      | some (index, item_old) ↦
          let (won, q') = cas_item q.top.value index item_old (emptied item_old) q in
          if not (same q.top top_old)
          then again q
          else if won
          then returns (some item_old.value) q'
          else again q'
      | none ↦
          let (bare, q') = is_empty top_old.value random' q in
          if not (same q.top top_old)
          then again q
          else if (q.segments top_old.value).next.value == 0
          then (if bare
              then (if same q'.top top_old then returns none q' else again q')
              else again q')
          else again (try_remove_ksegment random' top_old q)
    ]

-- The loops, on fuel; `none` when the fuel is spent.
unfoldable pub push : (rand : ℕ → ℕ) → (fuel item : ℕ) → KStack → Option (Bool × KStack)
push rand zero item q = none
push rand (suc fuel) item q = elim (push_round item (rand fuel) q) [
  | returns r q' ↦ some (r, q')
  | again q' ↦ push rand fuel item q'
]

unfoldable pub pop : (rand rand' : ℕ → ℕ) → (fuel : ℕ) → KStack → Option (Option ℕ × KStack)
pop rand rand' zero q = none
pop rand rand' (suc fuel) q = elim (pop_round (rand fuel) (rand' fuel) q) [
  | returns r q' ↦ some (r, q')
  | again q' ↦ pop rand rand' fuel q'
]
