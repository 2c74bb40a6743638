-- ===== src/Modules/Accessor.antt =====
-- src/common/utils/buffer_accessor.hpp: reads and writes in a buffer of bytes that throw where they
-- leave it.
use emulator_momo.Common.{
  ℕ, zero, suc, ◌+◌, ◌*◌, ◌%◌, [], ◌∷◌, ◌++◌, length, take, drop, ltb, ◌==◌, if◌then◌else◌, add64,
  u64_mod, Result, ok, thrown, ◌>>=◌, Text,
}
use emulator_momo.Serialization.Buffer.{Bytes, from_bytes}

-- `get_valid_pointer` of an accessor at `offset` for objects of `size` bytes: the offset of an element.
-- The sums wrap around.
unfoldable pub get_valid_pointer : ℕ → ℕ → ℕ → Bytes → Result ℕ
unfolding add64
get_valid_pointer size offset element_index buffer =
    let start_offset = add64 offset (size * element_index % u64_mod) in
    let end_offset = add64 start_offset size in
    if ltb (length buffer) end_offset then thrown else ok start_offset

-- `safe_object_accessor::get`, the bytes of an object
unfoldable pub get_object : ℕ → ℕ → ℕ → Bytes → Result Bytes
unfolding get_valid_pointer take drop
get_object size offset element_index buffer =
    get_valid_pointer size offset element_index buffer >>= λ start.
    ok (take size (drop start buffer))

-- `get` of a number
unfoldable pub get_number : ℕ → ℕ → ℕ → Bytes → Result ℕ
unfolding get_object from_bytes
get_number size offset element_index buffer =
    get_object size offset element_index buffer >>= λ object. ok (from_bytes object)

-- The buffer with the bytes at `start` replaced.
unfoldable pub write_at : ℕ → Bytes → Bytes → Bytes
unfolding take drop
write_at start object buffer = take start buffer ++ (object ++ drop (start + length object) buffer)

-- `safe_object_accessor::set` of the bytes of an object
unfoldable pub set_object : Bytes → ℕ → ℕ → Bytes → Result Bytes
unfolding get_valid_pointer write_at
set_object object offset element_index buffer =
    get_valid_pointer (length object) offset element_index buffer >>= λ start.
    ok (write_at start object buffer)

-- `safe_buffer_accessor::get_pointer_for_range`, the bytes of the range
unfoldable pub get_pointer_for_range : ℕ → ℕ → Bytes → Result Bytes
unfolding add64 take drop
get_pointer_for_range offset size buffer =
    if ltb (length buffer) (add64 offset size) then thrown else ok (take size (drop offset buffer))

-- The loop of `as_string`: `index` characters have been read.
unfoldable pub string_loop : ℕ → ℕ → ℕ → Bytes → Result Text
unfolding get_number
string_loop zero offset index buffer = thrown
string_loop (suc rounds) offset index buffer = get_number 1 offset index buffer >>= λ value.
    let rest = string_loop rounds offset (index + 1) buffer >>= λ text. ok (value ∷ text) in
    if value == 0 then ok [] else rest

-- `as_string<char>`. A round more than the buffer has bytes is enough to find a zero or its end.
unfoldable pub as_string : ℕ → Bytes → Result Text
unfolding string_loop
as_string offset buffer = string_loop (suc (length buffer)) offset 0 buffer
