-- ===== src/DataStructures/MsQueue/Invariant/Growth.antt =====
-- How a move changes the log, and that the log goes on describing the memory.
use scal.Prelude.{
  ℕ, suc, ◌≡◌, ◌≢◌, ◌≤◌, ◌<◌, true, update, arith, Cell, subst, ap, sym, ◌∙◌, dec_lt,
}
use scal.DataStructures.MsQueue.{Shared, Pc, Move}
use scal.DataStructures.MsQueue.Invariant.Defs.{Log, Upto, IsFresh, Inv}

abbrev pub append : Log → ℕ → Log
append l n = record l {
  at = update l.at (suc l.last) n;
  pos = update l.pos n (suc l.last);
  last = suc l.last;
}

-- The log after a move.
unfoldable pub log_after : {m m' : Shared} {p p' : Pc} → Move m p m' p' → Log → Log
log_after (Move.enq_wins {n} g) l = append l n
log_after (Move.enq_helps g) l = record l { tl = suc l.tl }
log_after (Move.swing_wins g) l = record l { tl = suc l.tl }
log_after (Move.deq_helps g) l = record l { tl = suc l.tl }
log_after (Move.deq_wins g) l = record l { hd = suc l.hd }
log_after mv l = l

module _ {l : Log} {m : Shared} {pc : ℕ → Pc} (inv : Inv l m pc) (i : ℕ) where
  open inv use {head_at, tail_at, order, placed, in_use, linked, ended, own, apart, fresh}

  -- The only linked node with no successor is the last, and then the tail stands there.
  pub at_end :
      (p : ℕ) → Upto l l.tl p → (m.node p).next.value ≡ 0 → (l.pos p ≡ l.last) × (l.tl ≡ l.last)
  at_end p u z = elim (dec_lt (l.pos p) l.last) [
    | yes b ↦ absurd ((in_use (suc (l.pos p)) b).0 (sym (linked (l.pos p) b) ∙ (rw u.1 z)))
    | no nb ↦ ground arith
  ]

  pub at_head : {h : Cell} → m.head ≡ h → Upto l l.hd h.value → l.pos h.value ≡ l.hd
  at_head {h} e u = ground (arith, placed l.hd)

  pub at_tail : {t : Cell} → m.tail ≡ t → Upto l l.tl t.value → l.pos t.value ≡ l.tl
  at_tail {t} e u = ground (arith, placed l.tl)

  pub own-IsFresh : {p : Pc} → pc i ≡ p → IsFresh l m p
  own-IsFresh e = subst (IsFresh l m) e (fresh i)

  pub Move-head_at :
      {p p' : Pc} {m' : Shared} (mv : Move m p m' p')
      → pc i ≡ p
      → m'.head.value ≡ (log_after mv l).at (log_after mv l).hd
  unfolding log_after
  Move-head_at (Move.enq_wins {n} g) e = ground arith
  Move-head_at (Move.deq_wins g) e = let f = own-IsFresh e in let p = at_head g f.0 in ground arith
  Move-head_at mv e = head_at

  pub Move-tail_at :
      {p p' : Pc} {m' : Shared} (mv : Move m p m' p')
      → pc i ≡ p
      → m'.tail.value ≡ (log_after mv l).at (log_after mv l).tl
  unfolding log_after
  Move-tail_at (Move.enq_wins {n} g) e = ground arith
  Move-tail_at (Move.enq_helps g) e = let f = own-IsFresh e in let p = at_tail g f.1 in ground arith
  Move-tail_at (Move.swing_wins g) e =
      let f = own-IsFresh e in let p = at_tail g f.0 in ground arith
  Move-tail_at (Move.deq_helps g) e = let f = own-IsFresh e in let p = at_tail g f.0 in ground arith
  Move-tail_at mv e = tail_at

  pub Move-order :
      {p p' : Pc} {m' : Shared} (mv : Move m p m' p')
      → pc i ≡ p
      → ((log_after mv l).hd ≤ (log_after mv l).tl) × ((log_after mv l).tl ≤ (log_after mv l).last)
  unfolding log_after
  Move-order (Move.enq_wins {n} g) e = omega arith
  Move-order (Move.enq_helps g) e = let f = own-IsFresh e in let p = at_tail g f.1 in omega arith
  Move-order (Move.swing_wins g) e = let f = own-IsFresh e in let p = at_tail g f.0 in omega arith
  Move-order (Move.deq_helps g) e = let f = own-IsFresh e in let p = at_tail g f.0 in omega arith
  Move-order (Move.deq_wins g) e = let f = own-IsFresh e in let p = at_head g f.0 in omega arith
  Move-order mv e = order

  pub Move-placed :
      {p p' : Pc} {m' : Shared} (mv : Move m p m' p')
      → pc i ≡ p
      → (k : ℕ) → k ≤ (log_after mv l).last
      → (log_after mv l).pos ((log_after mv l).at k) ≡ k
  unfolding log_after
  Move-placed (Move.enq_wins {n} g) e k b = ground (arith, placed k, apart i k)
  Move-placed mv e k b = placed k b

  pub Move-in_use :
      {p p' : Pc} {m' : Shared} (mv : Move m p m' p')
      → pc i ≡ p
      → (k : ℕ) → k ≤ (log_after mv l).last
      → ((log_after mv l).at k ≢ 0) × (m'.used ((log_after mv l).at k) ≡ true)
  unfolding log_after
  Move-in_use (Move.call_enqueue x ne un) e k b = ground (arith, in_use k)
  Move-in_use (Move.enq_wins {n} g) e k b = ground (arith, in_use k, own i n)
  Move-in_use mv e k b = in_use k b

  pub Move-linked :
      {p p' : Pc} {m' : Shared} (mv : Move m p m' p')
      → pc i ≡ p
      → (k : ℕ) → k < (log_after mv l).last
      → (m'.node ((log_after mv l).at k)).next.value ≡ (log_after mv l).at (suc k)
  unfolding log_after
  Move-linked (Move.call_enqueue {n} x ne un) e k b = ground (arith, linked k, in_use k)
  Move-linked (Move.enq_wins {n} {x} {t} g) e k b =
      let f = own-IsFresh e in
      let q = at_end t.value f.1 (ap Cell.value g ∙ f.2) in ground (arith, linked k, placed k)
  Move-linked mv e k b = linked k b

  pub Move-ended :
      {p p' : Pc} {m' : Shared} (mv : Move m p m' p')
      → pc i ≡ p
      → (m'.node ((log_after mv l).at (log_after mv l).last)).next.value ≡ 0
  unfolding log_after
  Move-ended (Move.call_enqueue {n} x ne un) e = ground arith
  Move-ended (Move.enq_wins {n} {x} {t} g) e =
      let f = own-IsFresh e in ground (arith, apart i (l.pos t.value))
  Move-ended mv e = ended
