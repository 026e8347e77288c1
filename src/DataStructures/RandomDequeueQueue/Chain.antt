-- ===== src/DataStructures/RandomDequeueQueue/Chain.antt =====
-- The nodes behind the head, in the order of the queue.
use scal.Prelude.{ℕ, ◌<◌, ◌≤◌, ◌≡◌, ◌⊎◌, true, List, [], ◌∷◌, arith, refl, ap, ◌∙◌, subst, inl, inr}
use scal.DataStructures.RandomDequeueQueue.{Node, RandomDequeueQueue}

-- From node a on, the links lead through ns to NULL; addresses grow.
abbrev pub Chain : (ℕ → Node) → ℕ → List ℕ → Type 0
Chain nodes a [] = (nodes a).next.value ≡ 0
Chain nodes a (n ∷ ns) = ((nodes a).next.value ≡ n) × (a < n) × Chain nodes n ns

abbrev pub last : ℕ → List ℕ → ℕ
last a [] = a
last a (n ∷ ns) = last n ns

pub Chain-le : (nodes : ℕ → Node) (a : ℕ) (ns : List ℕ) → Chain nodes a ns → a ≤ last a ns
Chain-le nodes a [] h = omega arith
Chain-le nodes a (n ∷ ns) (e, lt, h) = omega (arith, lt, Chain-le nodes n ns h)

-- A node is the last one only at the end.
pub Chain-last :
    (nodes : ℕ → Node) (a : ℕ) (ns : List ℕ) → Chain nodes a ns → a ≡ last a ns → ns ≡ []
Chain-last nodes a [] h e = refl
Chain-last nodes a (n ∷ ns) (d, lt, h) e = absurd (omega (arith, lt, e, Chain-le nodes n ns h))

-- Only the links of its own nodes matter to a chain.
pub Chain-links :
    (nodes nodes' : ℕ → Node) (a : ℕ) (ns : List ℕ)
    → ((k : ℕ) → (nodes' k).next ≡ (nodes k).next)
    → Chain nodes a ns
    → Chain nodes' a ns
Chain-links nodes nodes' a [] f h = ap (λ c. c.value) (f a) ∙ h
Chain-links nodes nodes' a (n ∷ ns) f (e, lt, h) =
    (ap (λ c. c.value) (f a) ∙ e, lt, Chain-links nodes nodes' n ns f h)

-- The queue at rest: a chain from the head to the tail.
pub record IsQueue (q : RandomDequeueQueue) (ns : List ℕ) : Type 0 where
  pub linked : Chain q.nodes q.head.value ns
  pub tail_is_last : q.tail.value ≡ last q.head.value ns
  pub room : q.tail.value < q.allocated

-- What is left of ns when deleted nodes at its begin are passed.
abbrev pub Passes : (ℕ → Node) → List ℕ → List ℕ → Type 0
Passes nodes [] rest = rest ≡ []
Passes nodes (n ∷ ns) rest = (rest ≡ n ∷ ns) ⊎ (((nodes n).deleted ≡ true) × Passes nodes ns rest)

pub Passes-refl : (nodes : ℕ → Node) (ns : List ℕ) → Passes nodes ns ns
Passes-refl nodes [] = refl
Passes-refl nodes (n ∷ ns) = inl refl

pub Passes-trans :
    (nodes : ℕ → Node) (ns ms ls : List ℕ)
    → Passes nodes ns ms
    → Passes nodes ms ls
    → Passes nodes ns ls
Passes-trans nodes [] ms ls h k = subst (λ m. Passes nodes m ls) h k
Passes-trans nodes (n ∷ ns) ms ls (inl e) k = subst (λ m. Passes nodes m ls) e k
Passes-trans nodes (n ∷ ns) ms ls (inr (d, h)) k = inr (d, Passes-trans nodes ns ms ls h k)
