-- ===== src/DataStructures/TreiberStack/Invariant/Moves.antt =====
-- Every move keeps the invariant.
use scal.Prelude.{
  refl, All-imp₂, sym, sym, ap, ◌∙◌, All-imp, ℕ, ◌≡◌, ◌≢◌, List, [], ◌∷◌, true, false, some, All,
  update, arith,
}
use scal.DataStructures.TreiberStack.{
  pop_cas, Cell, Node, Shared, Pc, Move, call_push, link, push_wins, load_some, pop_wins,
}
use scal.DataStructures.TreiberStack.Invariant.Defs.{reads, owns, IsFresh, Links, Inv}

-- A write to a node outside the stack leaves the links.
Links-update :
    (node : ℕ → Node) (n : ℕ) (v : Node) (p : ℕ) (qs : List ℕ)
    → All (λ q. some n ≢ some q) qs
    → Links node p qs
    → Links (update node n v) p qs
Links-update node n v p [] out h = h
Links-update node n v p (q ∷ qs) out h = ground (arith, Links-update node n v (node q).next qs)

abbrev pub tail : List ℕ → List ℕ
tail [] = []
tail (p ∷ ps) = ps

All-tail {κ} : (P : ℕ → Type κ) (ps : List ℕ) → All P ps → All P (tail ps)
All-tail P [] h = tt
All-tail P (p ∷ ps) h = h.1

-- The nodes in the stack after a move.
unfoldable pub stack_after : {m m' : Shared} {p p' : Pc} → Move m p m' p' → List ℕ → List ℕ
stack_after (push_wins {n} e) ps = n ∷ ps
stack_after (pop_wins e) ps = tail ps
stack_after mv ps = ps

-- The premises of a move, for the clauses that cannot name them.
abbrev Guard : {m m' : Shared} {p p' : Pc} → Move m p m' p' → Type 0
Guard {m} (call_push {n} x ne un) = (n ≢ 0) × (m.used n ≡ false)
Guard {m} (push_wins {top_old} e) = m.top ≡ top_old
Guard {m} (load_some ne) = m.top.value ≢ 0
Guard {m} (pop_wins {top_old} e) = m.top ≡ top_old
Guard _ = Unit

guard : {m m' : Shared} {p p' : Pc} (mv : Move m p m' p') → Guard mv
guard (call_push x ne un) = (ne, un)
guard (push_wins e) = e
guard (load_some ne) = ne
guard (pop_wins e) = e
guard _ = tt

module _ {m : Shared} {pc : ℕ → Pc} {ps : List ℕ} (inv : Inv m pc ps) (i : ℕ) where
  open inv use {links, in_use, shared, own, unique, held, apart, fresh}

  Move-own :
      {p p' : Pc} {m' : Shared}
      → Move m p m' p'
      → pc i ≡ p
      → (k q : ℕ) → owns (update pc i p' k) ≡ some q
      → (q ≢ 0) × (m'.used q ≡ true)
  Move-own (call_push x ne un) e k q h = ground (arith, own k q)
  Move-own mv e k q h = ground (arith, own k q)

  Move-unique :
      {p p' : Pc} {m' : Shared}
      → Move m p m' p'
      → pc i ≡ p
      → (j k q : ℕ) → owns (update pc i p' j) ≡ some q
      → owns (update pc i p' k) ≡ some q
      → j ≡ k
  Move-unique (call_push x ne un) e j k q g h = ground (arith, own j q, own k q, unique j k q)
  Move-unique mv e j k q g h = ground (arith, unique j k q)

  Move-IsFresh :
      {p p' : Pc} {m' : Shared}
      → Move m p m' p'
      → pc i ≡ p
      → (k : ℕ) → IsFresh m' (update pc i p' k)
  Move-IsFresh (call_push {n} x ne un) e k = ground (arith, fresh k, own k n, held k n)
  Move-IsFresh (link {n}) e k = ground (arith, fresh k, fresh i, unique i k n, apart k i n)
  Move-IsFresh mv e k = ground (arith, fresh k, fresh i)

  -- A node in the stack is not private to a thread, and the one on top is in use.
  top_held :
      (ps : List ℕ)
      → Links m.node m.top.value ps
      → All (λ q. m.used q ≡ true) ps
      → m.top.value ≢ 0
      → m.used m.top.value ≡ true
  top_held [] l u ne = absurd (ne l)
  top_held (q ∷ qs) l u ne = ground arith

  top_apart :
      (k : ℕ) (ps : List ℕ)
      → Links m.node m.top.value ps
      → All (λ q. owns (pc k) ≢ some q) ps
      → m.top.value ≢ 0
      → owns (pc k) ≢ some m.top.value
  top_apart k [] l u ne = absurd (ne l)
  top_apart k (q ∷ qs) l u ne = λ e. u.0 (rw (← l.0) e)

  Move-held :
      {p p' : Pc} {m' : Shared}
      → Move m p m' p'
      → pc i ≡ p
      → (k q : ℕ) → reads (update pc i p' k) ≡ some q
      → (q ≢ 0) × (m'.used q ≡ true)
  Move-held (call_push x ne un) e k q h = ground (arith, held k q)
  Move-held (load_some ne) e k q h = ground (arith, held k q, top_held ps links in_use ne)
  Move-held mv e k q h = ground (arith, held k q, held i q)

  Move-apart :
      {p p' : Pc} {m' : Shared}
      → Move m p m' p'
      → pc i ≡ p
      → (j k q : ℕ) → reads (update pc i p' j) ≡ some q
      → owns (update pc i p' k) ≢ some q
  Move-apart (call_push x ne un) e j k q g h = ground (arith, held j q, apart j k q)
  Move-apart (load_some ne) e j k q g h =
      ground (arith, apart j k q, top_apart k ps links (shared k) ne)
  Move-apart mv e j k q g h = ground (arith, apart j k q, apart i k q)

  -- The node of a push is not in the stack, before it is linked and after.
  outside : {n : ℕ} → owns (pc i) ≡ some n → All (λ q. some n ≢ some q) ps
  outside e = All-imp ps (λ q h g. h (e ∙ g)) (shared i)

  pub unused : {n : ℕ} → m.used n ≡ false → All (λ q. some n ≢ some q) ps
  unused {n} un = All-imp ps (λ q h g. ground arith) in_use

  pop-Links :
      {top_old : Cell} {next : ℕ}
      → m.top ≡ top_old
      → pc i ≡ pop_cas top_old next
      → (qs : List ℕ) → Links m.node m.top.value qs
      → Links m.node next (tail qs)
  pop-Links {top_old} {next} g e [] l =
      absurd ((held i top_old.value (rw e)).0 (ap Cell.value (sym g) ∙ l))
  pop-Links g e (q ∷ qs) (a, ne, l) = ground (arith, fresh i)

  Move-Links :
      {p p' : Pc} {m' : Shared} (mv : Move m p m' p')
      → pc i ≡ p
      → Links m'.node m'.top.value (stack_after mv ps)
  unfolding stack_after
  Move-Links (call_push x ne un) e = Links-update _ _ _ _ ps (unused un) links
  Move-Links (link {n}) e = Links-update _ _ _ _ ps (outside (rw e)) links
  Move-Links (push_wins {n} g) e = let f = fresh i in let o = own i n in ground arith
  Move-Links (pop_wins g) e = pop-Links g e ps links
  Move-Links mv e = links

  Move-in_use :
      {p p' : Pc} {m' : Shared} (mv : Move m p m' p')
      → pc i ≡ p
      → All (λ q. m'.used q ≡ true) (stack_after mv ps)
  unfolding stack_after
  Move-in_use (call_push {n} x ne un) e = All-imp ps (λ q h. ground arith) in_use
  Move-in_use (push_wins {n} g) e = ((own i n (rw e)).1, in_use)
  Move-in_use (pop_wins g) e = All-tail _ ps in_use
  Move-in_use mv e = in_use

  Move-shared :
      {p p' : Pc} {m' : Shared} (mv : Move m p m' p')
      → pc i ≡ p
      → (k : ℕ) → All (λ q. owns (update pc i p' k) ≢ some q) (stack_after mv ps)
  unfolding stack_after
  Move-shared (call_push {n} x ne un) e k = All-imp₂ ps (λ q h u. ground arith) (shared k) in_use
  Move-shared (push_wins {n} g) e k =
      (ground (arith, unique i k n), All-imp ps (λ q h. ground arith) (shared k))
  Move-shared (pop_wins g) e k = All-tail _ ps (All-imp ps (λ q h. ground arith) (shared k))
  Move-shared mv e k = All-imp ps (λ q h. ground arith) (shared k)

  -- A move of any thread keeps the invariant, for the stack that it leaves.
  pub Move-Inv :
      {p' : Pc} {m' : Shared} (mv : Move m (pc i) m' p')
      → Inv m' (update pc i p') (stack_after mv ps)
  Move-Inv mv = record {
    links = Move-Links mv refl;
    in_use = Move-in_use mv refl;
    shared = Move-shared mv refl;
    own = Move-own mv refl;
    unique = Move-unique mv refl;
    held = Move-held mv refl;
    apart = Move-apart mv refl;
    fresh = Move-IsFresh mv refl;
  }
