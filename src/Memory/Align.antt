-- ===== src/Memory/Align.antt =====
-- src/emulator/address_utils.hpp: what the page alignment computes.
use emulator_momo.Common.{
  ℕ, ◌+◌, ◌-◌, ◌*◌, ◌%◌, ◌≤◌, ◌<◌, ◌≡◌, refl, ◌∙◌, ap, arith, add64, add64-eq, u64_mod,
}
use emulator_momo.Common.Bits.{
  page_mask, two_to, two_to_pos, ones, ones-two_to, halve, halve_bounds, high_mask,
}
use emulator_momo.Memory.Address.{align_down, align_up, page_align_down, page_align_up}

-- Alignment down clears the offset in the page.
page_align_down-eq : (v : ℕ) → v < u64_mod → page_align_down v ≡ v - v % 4096
unfolding page_align_down align_down
page_align_down-eq v h = page_mask v h

page_align_up-eq : (v : ℕ) → v + 4095 < u64_mod → page_align_up v ≡ (v + 4095) - (v + 4095) % 4096
unfolding page_align_up align_up align_down
page_align_up-eq v h = rw (add64-eq v 4095 h) (page_mask (v + 4095) h)

-- Both alignments give a multiple of the page size, the nearest one below and above, where the sum
-- with the page size does not wrap.
pub page_align_bounds :
    (v : ℕ)
    → v + 4095 < u64_mod
    → (page_align_down v % 4096 ≡ 0)
      × (page_align_up v % 4096 ≡ 0)
      × (page_align_down v ≤ v)
      × (v < page_align_down v + 4096)
      × (v ≤ page_align_up v)
      × (page_align_up v < v + 4096)
page_align_bounds v h =
    let d = page_align_down-eq v (omega arith) in
    let u = page_align_up-eq v h in
    (omega arith, omega arith, omega arith, omega arith, omega arith, omega arith)

two_to_64 : two_to 64 ≡ u64_mod
unfolding two_to
two_to_64 = refl

align_down-eq :
    (n k v : ℕ) → n + k ≡ 64 → v < u64_mod → align_down v (two_to k) ≡ halve k v * two_to k
unfolding align_down
align_down-eq n k v e h =
    let total : ones n * two_to k + two_to k ≡ u64_mod =
      ones-two_to n k ∙ ap two_to e ∙ two_to_64 in
    let mask : u64_mod - 1 - (two_to k - 1) ≡ ones n * two_to k =
      omega (arith, total, two_to_pos k) in
    let small : v < two_to (n + k) = rw (e, two_to_64) h in rw mask (high_mask n k v small)

-- Alignment up to a power of 2, `two_to k`, where the sum with it does not wrap: the result is a
-- multiple of it, and the least one that is not below the value.
pub align_up_bounds :
    (n k v : ℕ)
    → n + k ≡ 64
    → v + two_to k ≤ u64_mod
    → (align_up v (two_to k) ≡ halve k (v + (two_to k - 1)) * two_to k)
      × (v ≤ align_up v (two_to k))
      × (align_up v (two_to k) < v + two_to k)
unfolding align_up
align_up_bounds n k v e h =
    let pos = two_to_pos k in
    let w = v + (two_to k - 1) in
    let sum : add64 v (two_to k - 1) ≡ w = add64-eq v (two_to k - 1) (omega arith) in
    let d = align_down-eq n k w e (omega arith) in
    let b = halve_bounds k w in
    (rw sum d, rw sum (omega (arith, d, b.1)), rw sum (omega (arith, d, b.0)))
