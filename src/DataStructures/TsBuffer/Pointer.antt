-- ===== src/DataStructures/TsBuffer/Pointer.antt =====
-- `get_aba_free_pointer` and `add_next_aba`: a counter in the low 3 bits of a pointer.
use scal.Prelude.{ℕ, ◌+◌, ◌*◌, ◌/◌, ◌%◌, ◌^◌, ◌<◌, ◌≡◌, arith}

-- `pointer & 0xfffffffffffffff8`, of a 64-bit pointer.
unfoldable pub get_aba_free_pointer : ℕ → ℕ
get_aba_free_pointer pointer = pointer / 8 * 8

-- The second mask of the source, `0xffffffffffffff8`, has one digit less, so 60 bits.
unfoldable pub add_next_aba : (pointer old increment : ℕ) → ℕ
add_next_aba pointer old increment =
    let aba = (old + increment) % 2 ^ 64 % 8 in
    let result = pointer / 8 * 8 + aba in result % 2 ^ 60 / 8 * 8 + aba

-- An 8-aligned pointer below 2 ^ 60 comes back, and the counter in the low bits is the old word's
-- counter moved on, modulo 8.
pub add_next_aba_round_trip :
    (pointer old increment : ℕ)
    → pointer % 8 ≡ 0
    → pointer < 2 ^ 60
    → (get_aba_free_pointer (add_next_aba pointer old increment) ≡ pointer)
      × (add_next_aba pointer old increment % 8 ≡ (old % 8 + increment) % 8)
unfolding get_aba_free_pointer add_next_aba
add_next_aba_round_trip pointer old increment aligned low = (omega arith, omega arith)

-- Of any 8-aligned pointer, the bits from the 60th on are lost.
pub add_next_aba-high :
    (pointer old increment : ℕ)
    → pointer % 8 ≡ 0
    → get_aba_free_pointer (add_next_aba pointer old increment) ≡ pointer % 2 ^ 60
unfolding get_aba_free_pointer add_next_aba
add_next_aba-high pointer old increment aligned = omega arith
