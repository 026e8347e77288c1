-- ===== src/DataStructures/SingleList/Linked.antt =====
-- Nodes that are linked from a sentinel to a last one, as single_list.h and lockbased_queue.h keep
-- them, and the list of their values.
use scal.Prelude.{ℕ, ◌≤◌, ◌<◌, ◌≡◌, List, [], ◌∷◌, ◌++◌, arith, update, refl, true, false, ◌==◌}

pub record Node : Type 0 where
  pub next : ℕ
  pub value : ℕ

-- A fresh node n for x, linked behind the node t: `n->value = x; t->next = n`.
unfoldable pub link : (ℕ → Node) → (t n x : ℕ) → ℕ → Node
link heap t n x =
    let filled = update heap n (record { next = 0; value = x }) in
    update filled t (record (filled t) { next = n })

-- From the sentinel h, the nodes behind it hold the values, and t is the last of them.
abbrev pub Chain : (ℕ → Node) → (h t : ℕ) → List ℕ → Type 0
Chain heap h t [] = h ≡ t
Chain heap h t (x ∷ xs) =
    (h < (heap h).next) × ((heap (heap h).next).value ≡ x) × Chain heap (heap h).next t xs

pub Chain-le : (heap : ℕ → Node) (h t : ℕ) (xs : List ℕ) → Chain heap h t xs → h ≤ t
Chain-le heap h t [] c = omega arith
Chain-le heap h t (x ∷ xs) c = omega (arith, Chain-le heap (heap h).next t xs c.2)

link-new : (heap : ℕ → Node) (t n x : ℕ) → t < n → (link heap t n x n).value ≡ x
unfolding link
link-new heap t n x lt = ground arith

link-last : (heap : ℕ → Node) (t n x : ℕ) → (link heap t n x t).next ≡ n
unfolding link
link-last heap t n x = ground arith

link-next :
    (heap : ℕ → Node) (t n x h : ℕ) → h < t → t < n → (link heap t n x h).next ≡ (heap h).next
unfolding link
link-next heap t n x h lt lt' = ground arith

link-value :
    (heap : ℕ → Node) (t n x h : ℕ) → h ≤ t → t < n → (link heap t n x h).value ≡ (heap h).value
unfolding link
link-value heap t n x h le lt = ground arith

-- Linking adds the value at the end.
pub link-Chain :
    (heap : ℕ → Node) (h t n x : ℕ) (xs : List ℕ)
    → t < n
    → Chain heap h t xs
    → Chain (link heap t n x) h n (xs ++ x ∷ [])
link-Chain heap h t n x [] lt c =
    rw (c, link-last heap t n x, link-new heap t n x lt) (lt, refl, refl)
link-Chain heap h t n x (y ∷ ys) lt c =
    let le = Chain-le heap (heap h).next t ys c.2 in
    rw (link-next heap t n x h (omega arith) lt, link-value heap t n x (heap h).next le lt)
      (c.0, c.1, link-Chain heap (heap h).next t n x ys lt c.2)

-- Whether the list is empty shows in the two ends.
pub Chain-ends :
    (heap : ℕ → Node) (h t x : ℕ) (xs : List ℕ) → Chain heap h t (x ∷ xs) → (h == t) ≡ false
Chain-ends heap h t x xs c = ground (arith, Chain-le heap (heap h).next t xs c.2)

pub Chain-no_ends : (heap : ℕ → Node) (h t : ℕ) → Chain heap h t [] → (h == t) ≡ true
Chain-no_ends heap h t c = ground arith
