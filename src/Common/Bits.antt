-- ===== src/Common/Bits.antt =====
-- `bit_and` with a mask of ones, low or high.
use Prim.Native.Nat.{
  ℕ, zero, suc, ◌+◌, ◌-◌, ◌*◌, ◌/◌, ◌%◌, ◌≤◌, ◌<◌, min, bit_and, digits, bit_and-bitwise,
}
use mathlib.Core.Path.{◌≡◌, refl}
use native.Mathlib.Omega.{arith}

abbrev and_up_to : ℕ → ℕ → ℕ → ℕ
and_up_to fuel a b = digits (λ b. zero) min fuel a b

-- The digits do not depend on the rounds, once there are enough.
and_up_to_enough : (n m a b : ℕ) → a ≤ n → a ≤ m → and_up_to n a b ≡ and_up_to m a b
and_up_to_enough zero zero a b p q = refl
and_up_to_enough zero (suc m) zero b p q = refl
and_up_to_enough zero (suc m) (suc a) b p q = absurd (omega arith)
and_up_to_enough (suc n) zero zero b p q = refl
and_up_to_enough (suc n) zero (suc a) b p q = absurd (omega arith)
and_up_to_enough (suc n) (suc m) zero b p q = refl
and_up_to_enough (suc n) (suc m) (suc a) b p q =
    omega (arith, and_up_to_enough n m (suc a / 2) (b / 2) (omega arith) (omega arith))

zero-bit_and : (b : ℕ) → bit_and 0 b ≡ 0
zero-bit_and b = bit_and-bitwise 0 b

-- The lowest digit of both.
pub bit_and-halves : (a b : ℕ) → bit_and a b ≡ bit_and (a / 2) (b / 2) * 2 + min (a % 2) (b % 2)
bit_and-halves zero b = omega (arith, zero-bit_and b, zero-bit_and (b / 2))
bit_and-halves (suc a) b = omega (
  arith,
  bit_and-bitwise (suc a) b,
  bit_and-bitwise (suc a / 2) (b / 2),
  and_up_to_enough a (suc a / 2) (suc a / 2) (b / 2) (omega arith) (omega arith),
)

-- A mask of `n` ones keeps a number of `n` digits.
pub ones : ℕ → ℕ
ones zero = 0
ones (suc n) = ones n * 2 + 1

unfoldable pub two_to : ℕ → ℕ
two_to zero = 1
two_to (suc n) = two_to n * 2

pub bit_and-ones : (n a : ℕ) → a < two_to n → bit_and a (ones n) ≡ a
unfolding ones two_to
bit_and-ones zero zero h = zero-bit_and 0
bit_and-ones zero (suc a) h = absurd (omega arith)
bit_and-ones (suc n) a h =
    let rest = bit_and-ones n (a / 2) (omega arith) in
    let e1 : (ones n * 2 + 1) / 2 ≡ ones n = omega arith in
    let e2 : (ones n * 2 + 1) % 2 ≡ 1 = omega arith in
    rw (bit_and-halves a (ones n * 2 + 1), e1, e2, rest) (omega arith)

-- Four zeros at the end of a mask.
bit_and-sixteen : (a b : ℕ) → bit_and a (b * 16) ≡ bit_and (a / 16) b * 16
bit_and-sixteen a b =
    let h1 : b * 16 / 2 ≡ b * 8 = omega arith in
    let h2 : b * 8 / 2 ≡ b * 4 = omega arith in
    let h3 : b * 4 / 2 ≡ b * 2 = omega arith in
    let h4 : b * 2 / 2 ≡ b = omega arith in
    let q : a / 2 / 2 / 2 / 2 ≡ a / 16 = omega arith in
    let s1 = rw h1 at (bit_and-halves a (b * 16)) in
    let s2 = rw h2 at (bit_and-halves (a / 2) (b * 8)) in
    let s3 = rw h3 at (bit_and-halves (a / 2 / 2) (b * 4)) in
    let s4 = rw (h4, q) at (bit_and-halves (a / 2 / 2 / 2) (b * 2)) in omega (arith, s1, s2, s3, s4)

-- The mask of a page: 52 ones over 12 zeros.
pub page_mask : (a : ℕ) → a < 18446744073709551616 → bit_and a 18446744073709547520 ≡ a - a % 4096
unfolding ones two_to
page_mask a h =
    let e1 = bit_and-sixteen a 1152921504606846720 in
    let e2 = bit_and-sixteen (a / 16) 72057594037927920 in
    let e3 = bit_and-sixteen (a / 16 / 16) 4503599627370495 in
    let e4 = bit_and-ones 52 (a / 16 / 16 / 16) (omega arith) in omega (arith, e1, e2, e3, e4)

-- `k` halvings.
pub halve : ℕ → ℕ → ℕ
halve zero a = a
halve (suc k) a = halve k (a / 2)

pub halve_bounds : (k a : ℕ) → (halve k a * two_to k ≤ a) × (a < halve k a * two_to k + two_to k)
unfolding halve two_to
halve_bounds zero a = omega arith
halve_bounds (suc k) a =
    let h = halve_bounds k (a / 2) in
    let e : halve k (a / 2) * (two_to k * 2) ≡ halve k (a / 2) * two_to k * 2 = grind arith in
    (rw e (omega (arith, h.0)), rw e (omega (arith, h.1)))

-- `k` zeros at the end of a mask.
pub bit_and-zeros : (k a b : ℕ) → bit_and a (b * two_to k) ≡ bit_and (halve k a) b * two_to k
unfolding halve two_to
bit_and-zeros zero a b = let e : b * 1 ≡ b = omega arith in rw e (omega arith)
bit_and-zeros (suc k) a b =
    let e : b * (two_to k * 2) ≡ b * two_to k * 2 = grind arith in
    let f : bit_and (halve k (a / 2)) b * (two_to k * 2)
        ≡ bit_and (halve k (a / 2)) b * two_to k * 2 =
      grind arith in
    let h1 : b * two_to k * 2 / 2 ≡ b * two_to k = omega arith in
    let h2 : b * two_to k * 2 % 2 ≡ 0 = omega arith in
    rw (e, f, bit_and-halves a (b * two_to k * 2), h1, h2, bit_and-zeros k (a / 2) b) (omega arith)

pub ones-two_to : (n k : ℕ) → ones n * two_to k + two_to k ≡ two_to (n + k)
unfolding ones two_to
ones-two_to zero k = let e : 0 + k ≡ k = omega arith in rw e (omega arith)
ones-two_to (suc n) k =
    let e : suc n + k ≡ suc (n + k) = omega arith in
    let h = ones-two_to n k in
    let g : (ones n * 2 + 1) * two_to k + two_to k ≡ (ones n * two_to k + two_to k) * 2 =
      grind arith in
    rw (e, g, h) refl

pub halve-lt : (k n a : ℕ) → a < two_to (n + k) → halve k a < two_to n
unfolding halve two_to
halve-lt zero n a h = let e : n + 0 ≡ n = omega arith in rw e at h
halve-lt (suc k) n a h =
    let e : n + suc k ≡ suc (n + k) = omega arith in
    let h' : a < two_to (n + k) * 2 = rw e at h in halve-lt k n (a / 2) (omega (arith, h'))

-- A mask of `n` ones over `k` zeros, on a number of `n + k` digits.
pub high_mask :
    (n k a : ℕ) → a < two_to (n + k) → bit_and a (ones n * two_to k) ≡ halve k a * two_to k
high_mask n k a h =
    rw (bit_and-zeros k a (ones n), bit_and-ones n (halve k a) (halve-lt k n a h)) refl

pub two_to_pos : (k : ℕ) → 0 < two_to k
unfolding two_to
two_to_pos zero = omega arith
two_to_pos (suc k) = omega (arith, two_to_pos k)
