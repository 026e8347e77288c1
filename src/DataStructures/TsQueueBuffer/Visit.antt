-- ===== src/DataStructures/TsQueueBuffer/Visit.antt =====
-- What the visit of one buffer sees, whatever the other threads do meanwhile.
use scal.Prelude.{
  ℕ, ◌≤◌, ◌<◌, ◌≡◌, ◌≢◌, Bool, true, false, ◌==◌, some, arith, refl, sym, ap, ◌∙◌, subst, update,
  update_self, update_ne, ℕ_discrete, some-inj, false-true, Cell, same, same_iff, Bool-cases,
  ==_iff, inl, inr,
}
use scal.DataStructures.TsBuffer.{Buffer, oldest}
use scal.DataStructures.TsBuffer.Onward.{IsBuffer, IsBuffer-le, Onward, Onward-trans}
use scal.DataStructures.TsQueueBuffer.{
  Timestamping, TsQueueBuffer, Choice, Pass, tick, compare_item, visit,
}

abbrev pub AllBuffers : (ℕ → Buffer) → Type 0
AllBuffers bs = (k : ℕ) → IsBuffer (bs k)

abbrev pub AllOnward : (ℕ → Buffer) → (ℕ → Buffer) → Type 0
AllOnward bs cs = (k : ℕ) → Onward (bs k) (cs k)

-- Well-formed buffers, and a remembered remove word of a buffer is one that it has had.
pub record IsReady (q : TsQueueBuffer) : Type 0 where
  pub valid : AllBuffers q.buffers
  pub remembered : (k : ℕ) → (q.checks k).value ≤ (q.buffers k).remove.value

abbrev pub IsEmptyAt : (ℕ → Buffer) → ℕ → Type 0
IsEmptyAt bs k = (bs k).remove.value ≡ (bs k).insert

-- What is so after a step that began in q.
pub record Goes (q q' : TsQueueBuffer) : Type 0 where
  pub ready : IsReady q'
  pub onward : AllOnward q.buffers q'.buffers

-- The candidate still stands in its buffer, or behind it.
abbrev pub IsChoice : (ℕ → Buffer) → Choice → Type 0
IsChoice bs c =
    (oldest (bs c.buffer_index) c.old_remove ≡ c.result)
    × (c.old_remove.value < (bs c.buffer_index).insert)

pub IsChoice-onward :
    (bs cs : ℕ → Buffer) (c : Choice) → AllOnward bs cs → IsChoice bs c → IsChoice cs c
IsChoice-onward bs cs c o h = (
  (o c.buffer_index).links c.old_remove.value h.1 ∙ h.0,
  omega (arith, (o c.buffer_index).inserts, h.1),
)

pub Goes-trans : {q r s : TsQueueBuffer} → Goes q r → Goes r s → Goes q s
Goes-trans g h = record { ready = h.ready; onward = λ k. Onward-trans (g.onward k) (h.onward k) }

-- A buffer that is met empty, at a remove word that is no newer than the one at an earlier moment,
-- has been empty since that moment.
empty_since :
    (b c d : Buffer) (check : Cell)
    → IsBuffer b
    → IsBuffer c
    → Onward b c
    → Onward c d
    → check.value ≤ b.remove.value
    → check ≡ c.remove
    → c.remove.value ≡ d.insert
    → b.remove.value ≡ b.insert
empty_since b c d check vb vc o o' le e met = omega (
  arith,
  o.removes,
  o.inserts,
  o'.inserts,
  IsBuffer-le b vb,
  IsBuffer-le c vc,
  ap (λ w. w.value) e,
  le,
  met,
)

module _ (ts : Timestamping) (interference : ℕ → (ℕ → Buffer) → ℕ → Buffer)
    (acts : (t : ℕ) (bs : ℕ → Buffer)
      → AllBuffers bs
      → AllBuffers (interference t bs) × AllOnward bs (interference t bs))
    (n : ℕ) where
  pub tick-Goes : (q : TsQueueBuffer) → IsReady q → Goes q (tick ts interference n q)
  unfolding tick
  tick-Goes q v = record {
    ready = record {
      valid = (acts q.clock q.buffers v.valid).0;
      remembered =
          λ k. omega (arith, v.remembered k, ((acts q.clock q.buffers v.valid).1 k).removes);
    };
    onward = (acts q.clock q.buffers v.valid).1;
  }

  tick-checks : (q : TsQueueBuffer) → (tick ts interference n q).checks ≡ q.checks
  unfolding tick
  tick-checks q = refl

  -- The states between the accesses of a visit.
  abbrev q₁ : TsQueueBuffer → TsQueueBuffer
  q₁ q = tick ts interference n q

  abbrev q₂ : TsQueueBuffer → TsQueueBuffer
  q₂ q = tick ts interference n (q₁ q)

  abbrev q₃ : TsQueueBuffer → TsQueueBuffer
  q₃ q = tick ts interference n (q₂ q)

  abbrev q₄ : TsQueueBuffer → TsQueueBuffer
  q₄ q = tick ts interference n (q₃ q)

  module _ (index : ℕ) (p : Pass) (q : TsQueueBuffer) where
    abbrev tmp_remove : Cell
    tmp_remove = ((q₁ q).buffers index).remove

    abbrev found : Choice
    found = record {
      buffer_index = index;
      result = oldest ((q₃ q).buffers index) tmp_remove;
      old_remove = tmp_remove;
    }

    abbrev met_empty : Bool
    met_empty = tmp_remove.value == ((q₂ q).buffers index).insert

    visit-item :
        met_empty ≡ false
        → visit ts interference n index p q ≡ (
          compare_item ts interference n p found
              (((q₄ q).buffers index).heap (oldest ((q₃ q).buffers index) tmp_remove)).timestamp,
          q₄ q,
        )
    unfolding visit
    visit-item e = rw (e, visit) refl

    visit-new :
        met_empty ≡ true
        → same ((q₃ q).checks index) tmp_remove ≡ false
        → visit ts interference n index p q ≡ (
          record p { empty = false },
          record (q₃ q) { checks = update (q₃ q).checks index tmp_remove },
        )
    unfolding visit
    visit-new e h = rw (e, h, visit) refl

    visit-known :
        met_empty ≡ true
        → same ((q₃ q).checks index) tmp_remove ≡ true
        → visit ts interference n index p q ≡ (p, q₃ q)
    unfolding visit
    visit-known e h = rw (e, h, visit) refl

    module _ (v : IsReady q) where
      g₁ : Goes q (q₁ q)
      g₁ = tick-Goes q v

      g₂ : Goes q (q₂ q)
      g₂ = Goes-trans g₁ (tick-Goes (q₁ q) g₁.ready)

      g₃ : Goes q (q₃ q)
      g₃ = Goes-trans g₂ (tick-Goes (q₂ q) g₂.ready)

      g₄ : Goes q (q₄ q)
      g₄ = Goes-trans g₃ (tick-Goes (q₃ q) g₃.ready)

      -- The remove word that is remembered is one that the buffer has had.
      remember : Goes q (record (q₃ q) { checks = update (q₃ q).checks index tmp_remove })
      remember = record {
        ready = record {
          valid = g₃.ready.valid;
          remembered = λ k. elim (ℕ_discrete index k) [
            | yes e ↦
                subst
                  (λ k.
                    (update (q₃ q).checks index tmp_remove k).value
                    ≤ ((q₃ q).buffers k).remove.value)
                  e
                  (rw (update_self (q₃ q).checks index tmp_remove)
                    (omega (arith, (onward₁₃ index).removes)))
            | no ne ↦ rw (update_ne (q₃ q).checks index tmp_remove k ne) (g₃.ready.remembered k)
          ];
        };
        onward = g₃.onward;
      }
        where
          onward₁₃ : AllOnward (q₁ q).buffers (q₃ q).buffers
          onward₁₃ k =
              Onward-trans ((tick-Goes (q₁ q) g₁.ready).onward k)
                ((tick-Goes (q₂ q) g₂.ready).onward k)

      pub visit-Goes : Goes q (visit ts interference n index p q).1
      visit-Goes = elim (Bool-cases met_empty) [
        | inr e ↦ rw (visit-item e) g₄
        | inl e ↦ elim (Bool-cases (same ((q₃ q).checks index) tmp_remove)) [
          | inr h ↦ rw (visit-new e h) remember
          | inl h ↦ rw (visit-known e h) g₃
        ]
      ]

      -- The item that was met stands in the buffer.
      found-IsChoice : met_empty ≡ false → IsChoice (q₄ q).buffers found
      found-IsChoice e =
          IsChoice-onward (q₃ q).buffers (q₄ q).buffers found (tick-Goes (q₃ q) g₃.ready).onward (
            refl,
            omega (
              arith,
              ne,
              IsBuffer-le ((q₁ q).buffers index) (g₁.ready.valid index),
              ((tick-Goes (q₁ q) g₁.ready).onward index).inserts,
              ((tick-Goes (q₂ q) g₂.ready).onward index).inserts,
            ),
          )
        where
          ne : tmp_remove.value ≢ ((q₂ q).buffers index).insert
          ne = ground (arith, e)

      pub visit-IsChoice :
          ((c : Choice) → p.choice ≡ some c → IsChoice q.buffers c)
          → (c : Choice) → (visit ts interference n index p q).0.choice ≡ some c
          → IsChoice (visit ts interference n index p q).1.buffers c
      visit-IsChoice h c = elim (Bool-cases met_empty) [
        | inr e ↦
            rw (visit-item e)
              (elim (Bool-cases (
                ts.is_later p.timestamp
                  (((q₄ q).buffers index).heap
                    (oldest ((q₃ q).buffers index) tmp_remove)).timestamp)) [
                      | inl later ↦ rw later (λ chosen.
                          subst (IsChoice (q₄ q).buffers) (some-inj chosen) (found-IsChoice e))
                      | inr other ↦
                          rw other
                            (λ old. IsChoice-onward q.buffers (q₄ q).buffers c g₄.onward (h c old))
                    ])
        | inl e ↦ elim (Bool-cases (same ((q₃ q).checks index) tmp_remove)) [
          | inr k ↦
              rw (visit-new e k)
                (λ old. IsChoice-onward q.buffers (q₃ q).buffers c g₃.onward (h c old))
          | inl k ↦
              rw (visit-known e k)
                (λ old. IsChoice-onward q.buffers (q₃ q).buffers c g₃.onward (h c old))
        ]
      ]

      -- A visit leaves the pass empty only at a buffer that is met empty at the word remembered.
      pub visit-empty :
          (visit ts interference n index p q).0.empty ≡ true
          → (p.empty ≡ true)
            × ((visit ts interference n index p q).1.checks ≡ q.checks)
            × ((s : ℕ → Buffer)
                → AllBuffers s
                → AllOnward s q.buffers
                → (q.checks index).value ≤ (s index).remove.value
                → IsEmptyAt s index)
      visit-empty = elim (Bool-cases met_empty) [
        | inr e ↦
            rw (visit-item e)
              (elim (Bool-cases (
                ts.is_later p.timestamp
                  (((q₄ q).buffers index).heap
                    (oldest ((q₃ q).buffers index) tmp_remove)).timestamp)) [
                      | inl later ↦ rw later (λ h. absurd (false-true h))
                      | inr other ↦ rw other (λ h. absurd (false-true h))
                    ])
        | inl e ↦ elim (Bool-cases (same ((q₃ q).checks index) tmp_remove)) [
          | inr k ↦ rw (visit-new e k) (λ h. absurd (false-true h))
          | inl k ↦ rw (visit-known e k) (λ h. (
            h,
            same_checks,
            λ s valid onward le.
                empty_since (s index) ((q₁ q).buffers index) ((q₂ q).buffers index) (q.checks index)
                  (valid index) (g₁.ready.valid index)
                  (Onward-trans (onward index) (g₁.onward index))
                  ((tick-Goes (q₁ q) g₁.ready).onward index) le
                  (sym (ap (λ f. f index) same_checks)
                    ∙ (same_iff ((q₃ q).checks index) tmp_remove).0 k)
                  ((==_iff tmp_remove.value ((q₂ q).buffers index).insert).0 e),
          ))
        ]
      ]
        where
          same_checks : (q₃ q).checks ≡ q.checks
          same_checks = tick-checks (q₂ q) ∙ tick-checks (q₁ q) ∙ tick-checks q
