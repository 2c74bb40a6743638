-- ===== src/Serialization/Buffer.antt =====
-- src/emulator/serialization.hpp: `buffer_serializer` and `buffer_deserializer`, on bytes.
use emulator_momo.Common.{
  ℕ, zero, suc, ◌+◌, ◌*◌, ◌/◌, ◌%◌, Bool, not, ◌&&◌, List, [], ◌∷◌, ◌++◌, length, take, drop, ltb,
  ◌==◌, if◌then◌else◌, add64, sub64, Result, ok, thrown, ◌>>=◌,
}

abbrev pub Bytes : Type 0
Bytes = List ℕ

-- The bytes of an object of `n` bytes, lowest first, as they lie in the memory of the host.
unfoldable pub to_bytes : ℕ → ℕ → Bytes
to_bytes zero v = []
to_bytes (suc n) v = (v % 256) ∷ to_bytes n (v / 256)

unfoldable pub from_bytes : Bytes → ℕ
from_bytes [] = 0
from_bytes (b ∷ bs) = b + 256 * from_bytes bs

-- The field of `width` bytes at `offset` in the bytes of an object.
unfoldable pub field_at : ℕ → ℕ → Bytes → ℕ
unfolding from_bytes take drop
field_at offset width object = from_bytes (take width (drop offset object))

-- `buffer_deserializer` without its factories.
pub record Deserializer : Type 0 where
  pub no_debugging : Bool
  pub offset : ℕ
  pub buffer : Bytes

pub get_remaining_size : Deserializer → ℕ
get_remaining_size s = sub64 (length s.buffer) s.offset

-- `debug` is false in a build with `NDEBUG`.
module _ (debug : Bool) where
  -- `buffer_serializer::write` of the bytes `bytes`. A debug build writes the old size of the buffer
  -- behind them.
  unfoldable pub write : Bytes → Bytes → Bytes
  write bytes buffer =
      if debug then buffer ++ (bytes ++ to_bytes 8 (length buffer)) else buffer ++ bytes

  -- The part of `read_data` for a debug build; `start` is the offset before the data.
  unfoldable pub check_data : ℕ → Bytes → Deserializer → Result (Bytes × Deserializer)
  check_data start result s =
      let end = add64 s.offset 8 in
      if ltb (length s.buffer) end
      then thrown
      else if not (from_bytes (take 8 (drop s.offset s.buffer)) == start)
      then thrown
      else ok (result, record s { offset = end })

  -- The sum of the offset and the length wraps around. Where it does not, the span lies inside the
  -- buffer.
  unfoldable pub read_data : ℕ → Deserializer → Result (Bytes × Deserializer)
  unfolding check_data
  read_data size s =
      let end = add64 s.offset size in
      let result = take size (drop s.offset s.buffer) in
      let s' = record s { offset = end } in
      if ltb (length s.buffer) end
      then thrown
      else if debug && not s.no_debugging
      then check_data s.offset result s'
      else ok (result, s')

  -- Objects that are copied byte by byte: numbers of `n` bytes.
  unfoldable pub write_uint : ℕ → ℕ → Bytes → Bytes
  write_uint n v = write (to_bytes n v)

  unfoldable pub read_uint : ℕ → Deserializer → Result (ℕ × Deserializer)
  read_uint n s = read_data n s >>= λ r. ok (from_bytes r.0, r.1)

  unfoldable pub write_bool : Bool → Bytes → Bytes
  write_bool v = write_uint 1 (if v then 1 else 0)

  unfoldable pub read_bool : Deserializer → Result (Bool × Deserializer)
  read_bool s = read_uint 1 s >>= λ r. ok (not (r.0 == 0), r.1)

  unfoldable pub get_remaining_data : Deserializer → Result (Bytes × Deserializer)
  get_remaining_data s = read_data (get_remaining_size s) s
