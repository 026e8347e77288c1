-- ===== src/DataStructures/TsBuffer/Examples.antt =====
-- A pointer with a counter, and the theorems about it.
use scal.Prelude.{◌+◌, ◌%◌, ◌^◌, ◌≡◌, refl, arith}
use scal.DataStructures.TsBuffer.Pointer.{
  get_aba_free_pointer, add_next_aba, add_next_aba_round_trip,
}

packed : add_next_aba 4096 71 1 ≡ 4096
unfolding add_next_aba
packed = refl

-- A pointer with high bits loses them.
high_bits_lost : get_aba_free_pointer (add_next_aba (2 ^ 60 + 64) 0 1) ≡ 64
unfolding get_aba_free_pointer add_next_aba
high_bits_lost = refl

add_next_aba_round_trip_example :
    (get_aba_free_pointer (add_next_aba 4096 70 1) ≡ 4096)
    × (add_next_aba 4096 70 1 % 8 ≡ (70 % 8 + 1) % 8)
add_next_aba_round_trip_example = add_next_aba_round_trip 4096 70 1 (omega arith) (omega arith)
