-- ===== src/DataStructures/SingleList/Examples.antt =====
-- A client of the linked list, and the theorem about it.
use scal.Prelude.{◌≡◌, List, [], ◌∷◌, true, false, refl}
use scal.DataStructures.SingleList.{
  Call, call_enqueue, call_dequeue, call_is_empty, run, new_list, enqueue, dequeue, is_empty,
}
use scal.DataStructures.SingleList.Linked.{link}
use scal.DataStructures.SingleList.Refine.{fifo_run, single_list_refines}

abbrev client : List Call
client =
    call_enqueue 4
    ∷ call_enqueue 5
    ∷ call_dequeue
    ∷ call_is_empty
    ∷ call_dequeue
    ∷ call_dequeue
    ∷ []

client_answers :
    (run client new_list).0
    ≡ (true, 0) ∷ (true, 0) ∷ (true, 4) ∷ (false, 0) ∷ (true, 5) ∷ (false, 0) ∷ []
unfolding run new_list enqueue dequeue is_empty link
client_answers = refl

single_list_refines_example : (run client new_list).0 ≡ (fifo_run client []).0
single_list_refines_example = single_list_refines client
