-- ===== src/Registry/Blocks.antt =====
-- src/windows-emulator/registry/hive_parser.cpp: the blocks of a hive file. Only the fields that the
-- parser reads are kept.
use emulator_momo.Common.{ℕ, take, drop, ltb, if◌then◌else◌, Result, ok, thrown, ◌>>=◌, min}
use emulator_momo.Serialization.Buffer.{Bytes, field_at}
use emulator_momo.Registry.File.{read_file_object}

-- `offset_entry_t`, 8 bytes
pub record OffsetEntry : Type 0 where
  pub offset : ℕ

-- `offsets_t`, 16 bytes
pub record Offsets : Type 0 where
  pub block_type_1 : ℕ
  pub count : ℕ

-- `key_block_t`, 336 bytes with its padding
pub record KeyBlock : Type 0 where
  pub subkeys : ℕ
  pub value_count : ℕ
  pub offsets : ℕ
  pub len : ℕ
  pub name : Bytes

-- `value_block_t`, 280 bytes with its padding
pub record ValueBlock : Type 0 where
  pub name_len : ℕ
  pub size : ℕ
  pub offset : ℕ
  pub value_type : ℕ
  pub name : Bytes

abbrev pub entries_offset : ℕ
entries_offset = 8

unfoldable pub read_int : Bytes → ℕ → ℕ → Result ℕ
unfolding read_file_object field_at
read_int file offset index = read_file_object file 4 offset index >>= λ b. ok (field_at 0 4 b)

unfoldable pub read_offset_entry : Bytes → ℕ → ℕ → Result OffsetEntry
unfolding read_file_object field_at
read_offset_entry file offset index =
    read_file_object file 8 offset index >>= λ b. ok (record { offset = field_at 0 4 b })

unfoldable pub read_offsets : Bytes → ℕ → Result Offsets
unfolding read_file_object field_at
read_offsets file offset = read_file_object file 16 offset 0 >>= λ b.
    ok (record { block_type_1 = field_at 5 1 b; count = field_at 6 2 b })

unfoldable pub read_key_block : Bytes → ℕ → Result KeyBlock
unfolding read_file_object field_at take drop
read_key_block file offset = read_file_object file 336 offset 0 >>= λ b. ok (record {
  subkeys = field_at 32 4 b;
  value_count = field_at 40 4 b;
  offsets = field_at 44 4 b;
  len = field_at 76 2 b;
  name = take 255 (drop 80 b);
})

unfoldable pub read_value_block : Bytes → ℕ → Result ValueBlock
unfolding read_file_object field_at take drop
read_value_block file offset = read_file_object file 280 offset 0 >>= λ b. ok (record {
  name_len = field_at 6 2 b;
  size = field_at 8 4 b;
  offset = field_at 12 4 b;
  value_type = field_at 16 4 b;
  name = take 255 (drop 24 b);
})

-- `std::string(name, std::min(len, 255))`: a negative length becomes a huge one, which the string
-- refuses.
unfoldable pub block_name : Bytes → ℕ → Result Bytes
unfolding take
block_name name len = if ltb len 0x8000 then ok (take (min len 255) name) else thrown
