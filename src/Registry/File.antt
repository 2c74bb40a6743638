-- ===== src/Registry/File.antt =====
-- src/windows-emulator/registry/hive_parser.cpp: reading from the file of a hive.
use emulator_momo.Common.{
  ℕ, ◌+◌, ◌*◌, ◌%◌, ◌||◌, length, take, drop, ltb, leb, ◌==◌, if◌then◌else◌, add64, u64_mod, Result,
  ok, thrown,
}
use emulator_momo.Serialization.Buffer.{Bytes}

-- An `int32_t` is its bit pattern, a number below 2^32. The conversion to 64 bits extends the sign.
unfoldable pub extend_int : ℕ → ℕ
extend_int v = if ltb v 0x80000000 then v else v + 0xffffffff00000000

-- How often `for (i = 0; i < v; i++)` runs for an `int32_t` and for an `int16_t` `v`.
unfoldable pub rounds_int : ℕ → ℕ
rounds_int v = if ltb v 0x80000000 then v else 0

unfoldable pub rounds_short : ℕ → ℕ
rounds_short v = if ltb v 0x8000 then v else 0

abbrev pub main_root_offset : ℕ
main_root_offset = 0x1000

abbrev pub main_key_block_offset : ℕ
main_key_block_offset = 0x1020

-- `MAIN_ROOT_OFFSET + v` for an `int` `v`
unfoldable pub at_root : ℕ → ℕ
unfolding extend_int add64
at_root v = add64 main_root_offset (extend_int v)

-- `read_file_data` on a file that is open and holds the bytes `file`. The stream takes the offset as
-- a signed number. Nothing is read for a size of 0, which succeeds at every offset.
unfoldable pub read_file_data : Bytes → ℕ → ℕ → Result Bytes
unfolding take drop
read_file_data file offset size =
    if leb 0x8000000000000000 offset
    then thrown
    else if size == 0 || leb (offset + size) (length file)
    then ok (take size (drop offset file))
    else thrown

-- `read_file_object<T>` for an object of `size` bytes
unfoldable pub read_file_object : Bytes → ℕ → ℕ → ℕ → Result Bytes
unfolding read_file_data add64
read_file_object file size offset array_index =
    read_file_data file (add64 offset (array_index * size % u64_mod)) size
