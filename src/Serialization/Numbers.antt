-- ===== src/Serialization/Numbers.antt =====
-- src/emulator/serialization.hpp: reading bytes, numbers and truth values.
use emulator_momo.Common.{
  ℕ, zero, suc, ◌+◌, ◌*◌, ◌/◌, ◌<◌, ◌≡◌, refl, sym, ◌∙◌, ap, subst, Bool, true, false, ◌++◌, length,
  length-append, take, drop, take-append, drop-append, eq→==, if◌then◌else◌, add64-eq, u64_mod, ok,
  arith,
}
use mathlib.Core.List.{append_assoc}
use emulator_momo.Serialization.Buffer.{
  Bytes, to_bytes, from_bytes, write, check_data, read_data, write_uint, read_uint, write_bool,
  read_bool,
}
use emulator_momo.Serialization.Codec.{Serializable, reader, Prefix, RoundTrips}

pub length-to_bytes : (n v : ℕ) → length (to_bytes n v) ≡ n
unfolding to_bytes
length-to_bytes zero v = refl
length-to_bytes (suc n) v = ap suc (length-to_bytes n (v / 256))

-- The least number that `n` bytes do not hold.
abbrev pub byte_bound : ℕ → ℕ
byte_bound zero = 1
byte_bound (suc n) = 256 * byte_bound n

pub from_bytes-to_bytes : (n v : ℕ) → v < byte_bound n → from_bytes (to_bytes n v) ≡ v
unfolding from_bytes to_bytes
from_bytes-to_bytes zero v h = omega arith
from_bytes-to_bytes (suc n) v h = omega (arith, from_bytes-to_bytes n (v / 256) (omega arith))

module _ (debug : Bool) where
  pub write-extends : (bytes b : Bytes) → Prefix b (write debug bytes b)
  unfolding write
  write-extends bytes b =
      elim debug
        as (λ d. Prefix b (if d then b ++ (bytes ++ to_bytes 8 (length b)) else b ++ bytes)) [
          | true ↦ (bytes ++ to_bytes 8 (length b), refl)
          | false ↦ (bytes, refl)
        ]

slice :
    (x y z whole : Bytes)
    → whole ≡ x ++ (y ++ z)
    → (take (length y) (drop (length x) whole) ≡ y)
      × (length whole ≡ length x + length y + length z)
slice x y z whole e =
    let n = length-append x (y ++ z) in
    let m = length-append y z in
    (
      rw e (ap (take (length y)) (drop-append x (y ++ z)) ∙ take-append y z),
      rw e (omega (arith, n, m)),
    )

module _ (whole : Bytes) (small : length whole < u64_mod) where
  -- Without the check of a debug build.
  read_data-plain :
      (bytes b rest : Bytes)
      → whole ≡ b ++ (bytes ++ rest)
      → read_data false (length bytes) (reader whole (length b))
        ≡ ok (bytes, reader whole (length b + length bytes))
  unfolding read_data
  read_data-plain bytes b rest e =
      let s = slice b bytes rest whole e in
      let sum = add64-eq (length b) (length bytes) (omega (arith, s.1)) in
      rw (sum, s.0) (ground (arith, s.1))

  -- The check of a debug build finds the size that `write` left.
  check_data-passes :
      (bytes b rest : Bytes)
      → whole ≡ b ++ (bytes ++ (to_bytes 8 (length b) ++ rest))
      → check_data true (length b) bytes (reader whole (length b + length bytes))
        ≡ ok (bytes, reader whole (length b + length bytes + 8))
  unfolding check_data
  check_data-passes bytes b rest e =
      let mark = to_bytes 8 (length b) in
      let n = length-to_bytes 8 (length b) in
      let front = length-append b bytes in
      let s = slice (b ++ bytes) mark rest whole (e ∙ sym (append_assoc b bytes (mark ++ rest))) in
      let sum = add64-eq (length b + length bytes) 8 (omega (arith, s.1, n, front)) in
      let there : take 8 (drop (length b + length bytes) whole) ≡ mark =
        rw (← front) (subst (λ k. take k (drop (length (b ++ bytes)) whole) ≡ mark) n s.0) in
      let back : from_bytes (take 8 (drop (length b + length bytes) whole)) ≡ length b =
        ap from_bytes there ∙ from_bytes-to_bytes 8 (length b) (omega (arith, s.1, front)) in
      rw (sum, back, eq→== (length b) (length b) refl) (ground (arith, s.1, n, front))

  read_data-checked :
      (bytes b rest : Bytes)
      → whole ≡ b ++ (bytes ++ (to_bytes 8 (length b) ++ rest))
      → read_data true (length bytes) (reader whole (length b))
        ≡ ok (bytes, reader whole (length b + length bytes + 8))
  unfolding read_data
  read_data-checked bytes b rest e =
      let s = slice b bytes (to_bytes 8 (length b) ++ rest) whole e in
      let sum = add64-eq (length b) (length bytes) (omega (arith, s.1)) in
      rw (sum, s.0) (ground (arith, s.1, check_data-passes bytes b rest e))

-- What was written is read.
pub read_data-write :
    (debug : Bool) (bytes b whole : Bytes)
    → length whole < u64_mod
    → Prefix (write debug bytes b) whole
    → read_data debug (length bytes) (reader whole (length b))
      ≡ ok (bytes, reader whole (length (write debug bytes b)))
unfolding write
read_data-write false bytes b whole small (rest, e) =
    read_data-plain whole small bytes b rest (e ∙ append_assoc b bytes rest)
    ∙ ap (λ k. ok (bytes, reader whole k)) (sym (length-append b bytes))
read_data-write true bytes b whole small (rest, e) =
    let mark = to_bytes 8 (length b) in
    let n = length-to_bytes 8 (length b) in
    let end : length b + length bytes + 8 ≡ length (b ++ (bytes ++ mark)) =
      omega (arith, n, length-append b (bytes ++ mark), length-append bytes mark) in
    read_data-checked whole small bytes b rest
      (e ∙ append_assoc b (bytes ++ mark) rest ∙ ap (◌++◌ b) (append_assoc bytes mark rest))
    ∙ ap (λ k. ok (bytes, reader whole k)) end

module _ (debug : Bool) where
  -- Numbers of `n` bytes, and truth values, as serializable types.
  abbrev pub uint : ℕ → Serializable ℕ
  uint n = record { serialize = write_uint debug n; deserialize = read_uint debug n }

  abbrev pub bool : Serializable Bool
  bool = record { serialize = write_bool debug; deserialize = read_bool debug }

  uint-reads :
      (n v : ℕ) (b whole : Bytes)
      → v < byte_bound n
      → length whole < u64_mod
      → Prefix (write_uint debug n v b) whole
      → read_uint debug n (reader whole (length b))
        ≡ ok (v, reader whole (length (write_uint debug n v b)))
  unfolding write_uint read_uint
  uint-reads n v b whole fits small p =
      let r = read_data-write debug (to_bytes n v) b whole small p in
      let r' =
        subst
          (λ k.
            read_data debug k (reader whole (length b))
            ≡ ok (to_bytes n v, reader whole (length (write debug (to_bytes n v) b))))
          (length-to_bytes n v) r in
      rw (r', from_bytes-to_bytes n v fits) refl

  pub uint-RoundTrips : (n : ℕ) → RoundTrips (uint n) (λ v. v < byte_bound n)
  unfolding write_uint
  uint-RoundTrips n = record {
    extends = λ v b. write-extends debug (to_bytes n v) b;
    reads = uint-reads n;
  }

  bool-reads :
      (v : Bool) (b whole : Bytes)
      → length whole < u64_mod
      → Prefix (write_bool debug v b) whole
      → read_bool debug (reader whole (length b))
        ≡ ok (v, reader whole (length (write_bool debug v b)))
  unfolding write_bool read_bool
  bool-reads true b whole small p = rw (uint-reads 1 1 b whole (omega arith) small p) refl
  bool-reads false b whole small p = rw (uint-reads 1 0 b whole (omega arith) small p) refl

  pub bool-RoundTrips : RoundTrips bool (λ v. Unit {0})
  unfolding write_bool write_uint
  bool-RoundTrips = record {
    extends = λ v b. write-extends debug (to_bytes 1 (if v then 1 else 0)) b;
    reads = λ v b whole _ small p. bool-reads v b whole small p;
  }
