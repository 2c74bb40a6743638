-- ===== src/Allocator/Pieces.antt =====
-- src/windows-emulator/emulator_utils.hpp: the pieces that `reserve` hands out.
use emulator_momo.Common.{
  ℕ, zero, suc, ◌+◌, ◌-◌, ◌*◌, ◌≤◌, ◌<◌, ◌≡◌, refl, ◌⊎◌, inl, inr, arith, ltb, add64, add64-eq,
  u64_mod, ok, thrown, Bool-cases, ltb→lt,
}
use emulator_momo.Common.Bits.{two_to, two_to_pos, halve}
use emulator_momo.Memory.Address.{align_up}
use emulator_momo.Memory.Align.{align_up_bounds}
use emulator_momo.Allocator.{Allocator, reserve}

-- The free part lies in the block, and the block ends early enough for the sums of a reservation.
pub record HasRoom (a : Allocator) (count k : ℕ) : Type 0 where
  pub inside : a.active_address ≤ a.address + a.size
  pub far : a.address + a.size + two_to k + count < u64_mod

-- A piece: its start is the first multiple of the alignment in what was free, it lies there, and what is
-- free after it starts where it ends.
pub record Piece (a : Allocator) (count k : ℕ) (r : ℕ × Allocator) : Type 0 where
  pub aligned : (q : ℕ) × (r.0 ≡ q * two_to k)
  pub fresh : a.active_address ≤ r.0
  pub first : (q : ℕ) → a.active_address ≤ q * two_to k → r.0 ≤ q * two_to k
  pub fits : r.0 + count ≤ a.address + a.size
  pub next : r.1.active_address ≡ r.0 + count
  pub same_block : (r.1.address ≡ a.address) × (r.1.size ≡ a.size)

-- No multiple of the alignment in what is free has the piece behind it fit in the block.
abbrev pub IsFull : Allocator → ℕ → ℕ → Type 0
IsFull a count k =
    (q : ℕ) → a.active_address ≤ q * two_to k → a.address + a.size < q * two_to k + count

-- A multiple is not above another one if it is less than one alignment above it.
multiple_le : (p q c : ℕ) → p * c < q * c + c → p * c ≤ q * c
multiple_le zero q c h = omega arith
multiple_le (suc p) zero c h = absurd (omega arith)
multiple_le (suc p) (suc q) c h = omega (arith, multiple_le p q c (omega arith))

-- A reservation with the alignment `two_to k`, where no sum wraps, hands out the first piece of what is free
-- that starts at a multiple of the alignment, or throws, where none fits.
pub reserve_cases :
    (a : Allocator) (count n k : ℕ)
    → n + k ≡ 64
    → HasRoom a count k
    → ((reserve a count (two_to k) ≡ thrown) × IsFull a count k)
      ⊎ ((r : ℕ × Allocator) × (reserve a count (two_to k) ≡ ok r) × Piece a count k r)
unfolding reserve
reserve_cases a count n k e room =
    let pos = two_to_pos k in
    let b = align_up_bounds n k a.active_address e (omega (arith, room.inside, room.far)) in
    let start = align_up a.active_address (two_to k) in
    let total = add64-eq a.address a.size (omega (arith, room.far)) in
    let end : add64 start count ≡ start + count =
      add64-eq start count (omega (arith, b.2, room.inside, room.far)) in
    let first : (q : ℕ) → a.active_address ≤ q * two_to k → start ≤ q * two_to k = λ q above.
      let p = halve k (a.active_address + (two_to k - 1)) in
      omega (arith, b.0, multiple_le p q (two_to k) (omega (arith, b.0, b.2))) in
    elim (Bool-cases (ltb (a.address + a.size) (start + count))) [
      | inl full ↦
          inl (rw (end, total, full) refl, λ q above. omega (arith, first q above, ltb→lt _ _ full))
      | inr free ↦ inr (
        (start, record a { active_address = start + count }),
        rw (end, total, free) refl,
        record {
          aligned = (halve k (a.active_address + (two_to k - 1)), b.0);
          fresh = b.1;
          first = first;
          fits = ground (arith, free);
          next = refl;
          same_block = (refl, refl);
        },
      )
    ]
