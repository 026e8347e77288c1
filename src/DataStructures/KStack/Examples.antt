-- ===== src/DataStructures/KStack/Examples.antt =====
-- A stack of segments of two slots, and the theorems about it.
use scal.Prelude.{
  ℕ, ◌≡◌, ◌⊎◌, true, false, Option, some, [], ◌∷◌, refl, arith, Cell, same, if◌then◌else◌, ◌==◌,
}
use scal.DataStructures.KStack.{KStack, new_stack, push, pop, committed}
use scal.DataStructures.KStack.Commit.{Kept, Defended, TakenBack, LeftBehind, kstack_commit}
use scal.DataStructures.KStack.Ends.{IsStack, PopEnds, pop_ends}
use scal.DataStructures.KStack.PushEnds.{PushEnds, push_ends}

abbrev two : KStack
two = new_stack 2

two-IsStack : IsStack two (1 ∷ [])
unfolding new_stack
two-IsStack = record {
  linked = (refl, omega arith, refl);
  present = omega arith;
  room = omega arith;
  positive = omega arith;
}

abbrev no_rand : ℕ → ℕ
no_rand i = 0

push_ends_example :
    (q' : KStack) × (push no_rand 2 7 two ≡ some (true, q')) × PushEnds two (1 ∷ []) 7 q'
push_ends_example = push_ends no_rand 7 0 two (1 ∷ []) two-IsStack

pop_ends_example :
    (r : Option ℕ) × (q' : KStack) × (pop no_rand no_rand 1 two ≡ some (r, q'))
    × PopEnds two (1 ∷ []) r q'
pop_ends_example = pop_ends no_rand no_rand 1 two (1 ∷ []) two-IsStack (omega arith)

abbrev word : ℕ → Cell
word x = record { value = x; aba = 0 }

-- Segment 1 with the item 5 in slot 0, which another thread is removing.
abbrev leaving : KStack
leaving = record two { segments = λ a. record { remove = 1; next = word 0; items = λ i. word 5 } }

-- Before the third access that thread gives up.
abbrev gives_up : ℕ → KStack → KStack
gives_up i q =
    if i == 2 then record q { segments = λ a. record (q.segments a) { remove = 0 } } else q

-- The commit fails, and the item is still in its slot.
item_left_behind :
    ((committed gives_up two.top (word 5) 0 leaving).0 ≡ false)
    × (((committed gives_up two.top (word 5) 0 leaving).1.segments 1).items 0 ≡ word 5)
unfolding committed new_stack same
item_left_behind = (refl, refl)

kstack_commit_example :
    let r = committed gives_up two.top (word 5) 0 leaving in
    Kept gives_up two.top (word 5) 0 leaving r
    ⊎ Defended gives_up two.top (word 5) 0 leaving r
    ⊎ TakenBack gives_up two.top (word 5) 0 leaving r
    ⊎ LeftBehind gives_up two.top (word 5) 0 leaving r
kstack_commit_example = kstack_commit gives_up two.top (word 5) 0 leaving
