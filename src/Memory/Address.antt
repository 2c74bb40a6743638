-- ===== src/Memory/Address.antt =====
-- src/emulator/address_utils.hpp and memory_permission.hpp: ranges of addresses, with the sum of a
-- start and a length taken modulo 2^64, and page alignment.
use Prim.Native.Nat.{bit_and}
use emulator_momo.Common.{ℕ, ◌-◌, Bool, ◌&&◌, leb, ltb, add64, u64_mod}

abbrev pub is_within_start_and_end : ℕ → ℕ → ℕ → Bool
is_within_start_and_end value start end = leb start value && ltb value end

unfoldable pub is_within_start_and_length : ℕ → ℕ → ℕ → Bool
is_within_start_and_length value start length =
    is_within_start_and_end value start (add64 start length)

abbrev pub regions_intersect : ℕ → ℕ → ℕ → ℕ → Bool
regions_intersect start1 end1 start2 end2 = ltb start1 end2 && ltb start2 end1

unfoldable pub regions_with_length_intersect : ℕ → ℕ → ℕ → ℕ → Bool
regions_with_length_intersect start1 length1 start2 length2 =
    regions_intersect start1 (add64 start1 length1) start2 (add64 start2 length2)

-- `value & ~(alignment - 1)` on 64 bits
unfoldable pub align_down : ℕ → ℕ → ℕ
align_down value alignment = bit_and value (u64_mod - 1 - (alignment - 1))

unfoldable pub align_up : ℕ → ℕ → ℕ
align_up value alignment = align_down (add64 value (alignment - 1)) alignment

unfoldable pub page_align_down : ℕ → ℕ
page_align_down value = align_down value 4096

unfoldable pub page_align_up : ℕ → ℕ
page_align_up value = align_up value 4096
