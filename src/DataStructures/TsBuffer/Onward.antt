-- ===== src/DataStructures/TsBuffer/Onward.antt =====
-- Buffers only go on: the end of a buffer grows, and its begin follows. What any thread does to the
-- buffers keeps them well-formed and goes on.
use scal.Prelude.{ℕ, ◌≤◌, ◌<◌, ◌≡◌, ◌≢◌, List, [], ◌∷◌, ◌++◌, arith, refl, Cell, ◌∙◌}
use scal.DataStructures.TsTimestamp.{Stamp}
use scal.DataStructures.TsBuffer.{
  Item, Buffer, new_buffer, insert_item, stamp_item, oldest, removed_to,
}

-- The items behind h, up to t, are at these addresses.
abbrev pub Chain : (ℕ → Item) → (h t : ℕ) → List ℕ → Type 0
Chain heap h t [] = h ≡ t
Chain heap h t (a ∷ ns) = ((heap h).next ≡ a) × (h < a) × Chain heap a t ns

pub record IsBuffer (b : Buffer) : Type 0 where
  pub items : List ℕ
  pub linked : Chain b.heap b.remove.value b.insert items
  pub room : b.insert < b.allocated

pub record Onward (b c : Buffer) : Type 0 where
  pub inserts : b.insert ≤ c.insert
  pub removes : b.remove.value ≤ c.remove.value
  pub links : (a : ℕ) → a < b.insert → (c.heap a).next ≡ (b.heap a).next

pub Onward-refl : (b : Buffer) → Onward b b
Onward-refl b = record { inserts = omega arith; removes = omega arith; links = λ a h. refl }

pub Onward-trans : {b c d : Buffer} → Onward b c → Onward c d → Onward b d
Onward-trans p q = record {
  inserts = omega (arith, p.inserts, q.inserts);
  removes = omega (arith, p.removes, q.removes);
  links = λ a h. q.links a (omega (arith, p.inserts)) ∙ p.links a h;
}

pub Chain-le : (heap : ℕ → Item) (h t : ℕ) (ns : List ℕ) → Chain heap h t ns → h ≤ t
Chain-le heap h t [] c = omega arith
Chain-le heap h t (a ∷ ns) c = omega (arith, Chain-le heap a t ns c.2)

pub IsBuffer-le : (b : Buffer) → IsBuffer b → b.remove.value ≤ b.insert
IsBuffer-le b v = Chain-le b.heap b.remove.value b.insert v.items v.linked

-- The links of the addresses below t decide about a chain to t.
Chain-same :
    (heap heap' : ℕ → Item) (h t : ℕ) (ns : List ℕ)
    → ((a : ℕ) → a < t → (heap' a).next ≡ (heap a).next)
    → Chain heap h t ns
    → Chain heap' h t ns
Chain-same heap heap' h t [] e c = c
Chain-same heap heap' h t (a ∷ ns) e c =
    (e h (omega (arith, Chain-le heap a t ns c.2)) ∙ c.0, c.1, Chain-same heap heap' a t ns e c.2)

Chain-snoc :
    (heap : ℕ → Item) (h t n : ℕ) (ns : List ℕ)
    → (heap t).next ≡ n
    → t < n
    → Chain heap h t ns
    → Chain heap h n (ns ++ n ∷ [])
Chain-snoc heap h t n [] e lt c = rw c (e, lt, refl)
Chain-snoc heap h t n (a ∷ ns) e lt c = (c.0, c.1, Chain-snoc heap a t n ns e lt c.2)

module _ (stamp : Stamp) (element : ℕ) (b : Buffer) where
  insert_item-next :
      b.insert < b.allocated → ((insert_item stamp element b).heap b.insert).next ≡ b.allocated
  unfolding insert_item
  insert_item-next lt = ground arith

  insert_item-below :
      (a : ℕ)
      → b.insert < b.allocated
      → a < b.insert
      → ((insert_item stamp element b).heap a).next ≡ (b.heap a).next
  unfolding insert_item
  insert_item-below a lt h = ground arith

  pub insert_item-Onward :
      IsBuffer b → IsBuffer (insert_item stamp element b) × Onward b (insert_item stamp element b)
  unfolding insert_item
  insert_item-Onward v = (
    record {
      items = v.items ++ b.allocated ∷ [];
      linked =
          Chain-snoc (insert_item stamp element b).heap b.remove.value b.insert b.allocated v.items
            (insert_item-next v.room) v.room
            (Chain-same b.heap (insert_item stamp element b).heap b.remove.value b.insert v.items
              (λ a h. insert_item-below a v.room h) v.linked);
      room = omega arith;
    },
    record {
      inserts = omega (arith, v.room);
      removes = omega arith;
      links = λ a h. insert_item-below a v.room h;
    },
  )

pub stamp_item-Onward :
    (item : ℕ) (stamp : Stamp) (b : Buffer)
    → IsBuffer b
    → IsBuffer (stamp_item item stamp b) × Onward b (stamp_item item stamp b)
unfolding stamp_item
stamp_item-Onward item stamp b v = (
  record {
    items = v.items;
    linked =
        Chain-same b.heap (stamp_item item stamp b).heap b.remove.value b.insert v.items
          (λ a h. ground arith) v.linked;
    room = v.room;
  },
  record { inserts = omega arith; removes = omega arith; links = λ a h. ground arith },
)

-- Taking the oldest item away, by an exchange of the remove word.
pub remove-Onward :
    (b : Buffer) (old : Cell)
    → IsBuffer b
    → b.remove ≡ old
    → b.remove.value ≢ b.insert
    → IsBuffer (record b { remove = removed_to (oldest b old) old })
      × Onward b (record b { remove = removed_to (oldest b old) old })
remove-Onward b old v e ne = go v.items v.linked
  where
    go :
        (ns : List ℕ)
        → Chain b.heap b.remove.value b.insert ns
        → IsBuffer (record b { remove = removed_to (oldest b old) old })
          × Onward b (record b { remove = removed_to (oldest b old) old })
    go [] c = absurd (ne c)
    go (a ∷ ns) c =
        rw (← e, c.0)
          (
            record { items = ns; linked = c.2; room = v.room },
            record { inserts = omega arith; removes = omega (arith, c.1); links = λ a h. refl },
          )

pub new_buffer-IsBuffer : (sentinel : Stamp) → IsBuffer (new_buffer sentinel)
unfolding new_buffer
new_buffer-IsBuffer sentinel = record { items = []; linked = refl; room = omega arith }
