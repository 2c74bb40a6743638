-- ===== src/Tests/Allocator.antt =====
-- Pieces of a block of guest memory, and the theorems at concrete inputs.
use emulator_momo.Common.{ℕ, ◌≡◌, refl, ◌⊎◌, arith, ok, thrown}
use emulator_momo.Common.Bits.{two_to}
use emulator_momo.Allocator.{Allocator, reserve}
use emulator_momo.Allocator.Pieces.{Piece, IsFull, reserve_cases}

abbrev block : Allocator
block = record { address = 0x10000; size = 0x1000; active_address = 0x10003 }

reserve_cases_example :
    ((reserve block 24 (two_to 4) ≡ thrown) × IsFull block 24 4)
    ⊎ ((r : ℕ × Allocator) × (reserve block 24 (two_to 4) ≡ ok r) × Piece block 24 4 r)
unfolding two_to
reserve_cases_example =
    reserve_cases block 24 60 4 refl (record { inside = omega arith; far = omega arith })
