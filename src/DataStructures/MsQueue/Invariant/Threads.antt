-- ===== src/DataStructures/MsQueue/Invariant/Threads.antt =====
-- What the threads know about the memory stays true under every move.
use scal.Prelude.{
  ℕ, suc, ◌≡◌, ◌≢◌, ◌≤◌, some, true, false, update, arith, Cell, ap, ◌∙◌, refl, ℕ_discrete,
  update_self, update_ne,
}
use scal.DataStructures.MsQueue.{Shared, Pc, Move, alloc, link_next, bump}
use scal.DataStructures.MsQueue.Invariant.Defs.{Log, owns, Upto, IsFresh, Inv}
use scal.DataStructures.MsQueue.Invariant.Growth.{
  log_after, at_end, own-IsFresh, append, Move-head_at, Move-tail_at, Move-order, Move-placed,
  Move-in_use, Move-linked, Move-ended,
}

module _ {l : Log} {m : Shared} {pc : ℕ → Pc} (inv : Inv l m pc) (i : ℕ) where
  open inv use {head_at, tail_at, order, placed, in_use, linked, ended, own, unique, apart, fresh}

  Move-own :
      {p p' : Pc} {m' : Shared}
      → Move m p m' p'
      → pc i ≡ p
      → (j q : ℕ) → owns (update pc i p' j) ≡ some q
      → (q ≢ 0) × (m'.used q ≡ true)
  Move-own (Move.call_enqueue x ne un) e j q h = ground (arith, own j q)
  Move-own mv e j q h = ground (arith, own j q)

  Move-unique :
      {p p' : Pc} {m' : Shared}
      → Move m p m' p'
      → pc i ≡ p
      → (j k q : ℕ) → owns (update pc i p' j) ≡ some q
      → owns (update pc i p' k) ≡ some q
      → j ≡ k
  Move-unique (Move.call_enqueue x ne un) e j k q g h =
      ground (arith, own j q, own k q, unique j k q)
  Move-unique mv e j k q g h = ground (arith, unique j k q)

  Move-apart :
      {p p' : Pc} {m' : Shared} (mv : Move m p m' p')
      → pc i ≡ p
      → (j k : ℕ) → k ≤ (log_after mv l).last
      → owns (update pc i p' j) ≢ some ((log_after mv l).at k)
  unfolding log_after
  Move-apart (Move.call_enqueue x ne un) e j k b h = ground (arith, apart j k, in_use k)
  Move-apart (Move.enq_wins {n} g) e j k b h = ground (arith, apart j k, unique i j n)
  Move-apart mv e j k b h = ground (arith, apart j k)

  -- A node that is linked keeps its place when another one is appended.
  kept : (n : ℕ) → owns (pc i) ≡ some n → (p : ℕ) → Upto l l.last p → n ≢ p
  kept n o p u e = apart i (l.pos p) u.0 (rw u.1 (o ∙ ap some e))

  -- The other threads: their reads are of nodes that stay linked, in a log that only grows.
  IsFresh-tail : (q : Pc) → IsFresh l m q → IsFresh (record l { tl = suc l.tl }) m q
  IsFresh-tail Pc.idle f = tt
  IsFresh-tail q f = ground arith

  IsFresh-head : (q : Pc) → IsFresh l m q → IsFresh (record l { hd = suc l.hd }) m q
  IsFresh-head Pc.idle f = tt
  IsFresh-head q f = ground arith

  IsFresh-alloc :
      {n : ℕ} (x : ℕ)
      → m.used n ≡ false
      → (j : ℕ) (q : Pc) → pc j ≡ q
      → IsFresh l m q
      → IsFresh l (alloc m n x) q
  IsFresh-alloc {n} x un j Pc.idle d f = tt
  IsFresh-alloc {n} x un j (Pc.deq_cas h t k y) d f = ground (arith, in_use (suc (l.pos h.value)))
  IsFresh-alloc {n} x un j q d f = ground (arith, own j n)

  IsFresh-append :
      {n : ℕ} (p : ℕ) (k : Cell)
      → owns (pc i) ≡ some n
      → Upto l l.last p
      → (j : ℕ) (q : Pc) → pc j ≡ q
      → IsFresh l m q
      → IsFresh (append l n) (link_next m p k) q
  IsFresh-append {n} p k o u j Pc.idle d f = tt
  IsFresh-append {n} p k o u j (Pc.enq_load a x) d f = ground (arith, apart j (l.pos p))
  IsFresh-append {n} p k o u j (Pc.enq_next a x t) d f =
      ground (arith, apart j (l.pos p), kept n o t.value)
  IsFresh-append {n} p k o u j (Pc.enq_check a x t c) d f =
      ground (arith, apart j (l.pos p), kept n o t.value)
  IsFresh-append {n} p k o u j (Pc.enq_cas a x t c) d f =
      ground (arith, apart j (l.pos p), kept n o t.value)
  IsFresh-append {n} p k o u j (Pc.enq_help a x t c) d f =
      ground (arith, apart j (l.pos p), kept n o t.value)
  IsFresh-append {n} p k o u j (Pc.enq_swing a t) d f = ground (arith, kept n o t.value)
  IsFresh-append {n} p k o u j (Pc.deq_help h t c) d f = ground (arith, kept n o t.value)
  IsFresh-append {n} p k o u j (Pc.deq_tail h) d f = ground (arith, kept n o h.value)
  IsFresh-append {n} p k o u j (Pc.deq_item h t c) d f = ground (arith, kept n o h.value)
  IsFresh-append {n} p k o u j (Pc.deq_cas h t c x) d f = ground (arith, kept n o h.value)
  IsFresh-append {n} p k o u j (Pc.deq_next h t) d f =
      ground (arith, kept n o h.value, kept n o t.value)
  IsFresh-append {n} p k o u j (Pc.deq_check h t c seen) d f =
      ground (arith, kept n o h.value, kept n o t.value)
  IsFresh-append {n} p k o u j q d f = tt

  Move-IsFresh_others :
      {p p' : Pc} {m' : Shared} (mv : Move m p m' p')
      → pc i ≡ p
      → (j : ℕ) → IsFresh (log_after mv l) m' (pc j)
  unfolding log_after
  Move-IsFresh_others (Move.call_enqueue x ne un) e j = IsFresh-alloc x un j (pc j) refl (fresh j)
  Move-IsFresh_others (Move.enq_wins {n} {x} {t} {k} g) e j =
      let f = own-IsFresh inv i e in
      IsFresh-append t.value (bump n k) (rw e) (omega arith, f.1.1) j (pc j) refl (fresh j)
  Move-IsFresh_others (Move.enq_helps g) e j = IsFresh-tail (pc j) (fresh j)
  Move-IsFresh_others (Move.swing_wins g) e j = IsFresh-tail (pc j) (fresh j)
  Move-IsFresh_others (Move.deq_helps g) e j = IsFresh-tail (pc j) (fresh j)
  Move-IsFresh_others (Move.deq_wins g) e j = IsFresh-head (pc j) (fresh j)
  Move-IsFresh_others mv e j = fresh j

  -- The thread that moves.
  Move-IsFresh_self :
      {p p' : Pc} {m' : Shared} (mv : Move m p m' p') → pc i ≡ p → IsFresh (log_after mv l) m' p'
  unfolding log_after
  Move-IsFresh_self (Move.call_enqueue x ne un) e = ground arith
  Move-IsFresh_self Move.load_tail e = let f = own-IsFresh inv i e in ground (arith, placed l.tl)
  Move-IsFresh_self (Move.load_next {n} {x} {t}) e =
      let f = own-IsFresh inv i e in ground (arith, linked (l.pos t.value))
  Move-IsFresh_self (Move.enq_stale g) e = (own-IsFresh inv i e).0
  Move-IsFresh_self (Move.enq_end g z) e = let f = own-IsFresh inv i e in ground arith
  Move-IsFresh_self (Move.enq_behind g z) e = let f = own-IsFresh inv i e in ground arith
  Move-IsFresh_self (Move.enq_wins {n} {x} {t} g) e =
      let f = own-IsFresh inv i e in
      let q = at_end inv i t.value f.1 (ap Cell.value g ∙ f.2) in
      ground (arith, kept n (rw e) t.value)
  Move-IsFresh_self (Move.enq_loses g) e = (own-IsFresh inv i e).0
  Move-IsFresh_self (Move.enq_helps g) e = (own-IsFresh inv i e).0
  Move-IsFresh_self (Move.enq_helped g) e = (own-IsFresh inv i e).0
  Move-IsFresh_self Move.deq_head e = ground (arith, placed l.hd)
  Move-IsFresh_self (Move.deq_reads_tail) e =
      let f = own-IsFresh inv i e in ground (arith, placed l.tl)
  Move-IsFresh_self (Move.deq_reads_next {h} {t}) e =
      let f = own-IsFresh inv i e in
      ground (arith, placed l.hd, linked (l.pos h.value), in_use (suc (l.pos h.value)))
  Move-IsFresh_self (Move.deq_behind g s z) e = let f = own-IsFresh inv i e in ground arith
  Move-IsFresh_self (Move.deq_some {h} {t} g s) e = let f = own-IsFresh inv i e in ground arith
  Move-IsFresh_self Move.load_item e = let f = own-IsFresh inv i e in ground arith
  Move-IsFresh_self mv e = tt

  Move-IsFresh :
      {p p' : Pc} {m' : Shared} (mv : Move m p m' p')
      → pc i ≡ p
      → (j : ℕ) → IsFresh (log_after mv l) m' (update pc i p' j)
  Move-IsFresh {p'} {m'} mv e j = elim (ℕ_discrete i j) [
    | yes same ↦ rw (← same, update_self pc i p') (Move-IsFresh_self mv e)
    | no ne ↦ rw (update_ne pc i p' j ne) (Move-IsFresh_others mv e j)
  ]

  -- A move of any thread keeps the invariant, for the log that it leaves.
  pub Move-Inv :
      {p' : Pc} {m' : Shared} (mv : Move m (pc i) m' p') → Inv (log_after mv l) m' (update pc i p')
  Move-Inv mv = record {
    head_at = Move-head_at inv i mv refl;
    tail_at = Move-tail_at inv i mv refl;
    order = Move-order inv i mv refl;
    placed = Move-placed inv i mv refl;
    in_use = Move-in_use inv i mv refl;
    linked = Move-linked inv i mv refl;
    ended = Move-ended inv i mv refl;
    own = Move-own mv refl;
    unique = Move-unique mv refl;
    apart = Move-apart mv refl;
    fresh = Move-IsFresh mv refl;
  }
