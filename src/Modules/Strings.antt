-- ===== src/Modules/Strings.antt =====
-- src/common/utils/buffer_accessor.hpp: `as_string` reads up to the first zero.
use emulator_momo.Common.{
  ℕ, zero, suc, ◌+◌, ◌*◌, ◌%◌, ◌<◌, ◌≡◌, ◌≢◌, refl, ap, false, [], ◌∷◌, ◌++◌, length, length-append,
  take, drop, drop-append, ltb, add64, u64_mod, ne→==, ok, All, arith,
}
use emulator_momo.Serialization.Buffer.{Bytes, from_bytes}
use emulator_momo.Modules.Accessor.{
  get_valid_pointer, get_object, get_number, string_loop, as_string,
}
use emulator_momo.Modules.Relocations.Bounds.{length-drop}

drop-next : (n c : ℕ) (xs rest : Bytes) → drop n xs ≡ c ∷ rest → drop (n + 1) xs ≡ rest
unfolding drop
drop-next zero c [] rest e = absurd (cc e)
drop-next zero c (x ∷ xs) rest e = cc e
drop-next (suc n) c [] rest e = absurd (cc e)
drop-next (suc n) c (x ∷ xs) rest e =
    let m : suc n + 1 ≡ suc (n + 1) = omega arith in rw m (drop-next n c xs rest e)

module _ (buffer : Bytes) (small : length buffer < u64_mod) (offset : ℕ) where
  -- The character at an index.
  character_at :
      (index c : ℕ) (rest : Bytes)
      → drop (offset + index) buffer ≡ c ∷ rest
      → get_number 1 offset index buffer ≡ ok c
  unfolding get_number get_object get_valid_pointer from_bytes take add64
  character_at index c rest e =
      let n = length-drop (offset + index) buffer in
      let m = ap length e in
      let a : 1 * index % u64_mod ≡ index = omega arith in
      let b : (offset + index) % u64_mod ≡ offset + index = omega arith in
      let d : (offset + index + 1) % u64_mod ≡ offset + index + 1 = omega arith in
      let fits : ltb (length buffer) (offset + index + 1) ≡ false = ground (arith, n, m) in
      let whole : c + 256 * 0 ≡ c = omega arith in rw (a, b, d) (rw fits (rw e (ap ok whole)))

  string_loop-text :
      (text rest : Bytes) (rounds index : ℕ)
      → length text < rounds
      → All (λ c. c ≢ 0) text
      → drop (offset + index) buffer ≡ text ++ 0 ∷ rest
      → string_loop rounds offset index buffer ≡ ok text
  unfolding string_loop
  string_loop-text text rest zero index h nonzero e = absurd (omega arith)
  string_loop-text [] rest (suc rounds) index h nonzero e =
      rw (string_loop, character_at index 0 rest e) refl
  string_loop-text (c ∷ text) rest (suc rounds) index h nonzero e =
      let there = character_at index c (text ++ 0 ∷ rest) e in
      let next = drop-next (offset + index) c buffer (text ++ 0 ∷ rest) e in
      let at_next : offset + index + 1 ≡ offset + (index + 1) = omega arith in
      let next' = rw at_next at next in
      let others = string_loop-text text rest rounds (index + 1) (omega arith) nonzero.1 next' in
      rw (string_loop, there, ne→== c 0 nonzero.0, others) refl

-- A text that stands in a buffer with a zero behind it and none in it is read whole.
pub as_string-text :
    (front text rest : Bytes)
    → length (front ++ (text ++ 0 ∷ rest)) < u64_mod
    → All (λ c. c ≢ 0) text
    → as_string (length front) (front ++ (text ++ 0 ∷ rest)) ≡ ok text
unfolding as_string string_loop
as_string-text front text rest small nonzero =
    let buffer = front ++ (text ++ 0 ∷ rest) in
    let n = length-append front (text ++ 0 ∷ rest) in
    let m = length-append text (0 ∷ rest) in
    let start : length front + 0 ≡ length front = omega arith in
    let there : drop (length front + 0) buffer ≡ text ++ 0 ∷ rest =
      rw start (drop-append front (text ++ 0 ∷ rest)) in
    string_loop-text buffer small (length front) text rest (suc (length buffer)) 0
      (omega (arith, n, m)) nonzero there
