-- ===== src/Registry/Hive.antt =====
-- src/windows-emulator/registry/hive_parser.hpp and hive_parser.cpp: the keys of a hive, which are read
-- from the file when they are first asked for. An operation that may throw returns what it returns
-- or throws together with the key that it leaves.
use emulator_momo.Common.{
  ℕ, zero, suc, ◌+◌, ◌%◌, Bool, true, false, not, ◌&&◌, Option, none, some, List, [], ◌∷◌, ◌==◌,
  ltb, if◌then◌else◌, add64, u32_mod, Result, ok, thrown, ◌>>=◌, same_name, to_lower,
}
use emulator_momo.Serialization.Buffer.{Bytes}
use emulator_momo.Registry.File.{
  extend_int, rounds_int, rounds_short, main_root_offset, main_key_block_offset, at_root,
  read_file_data,
}
use emulator_momo.Registry.Blocks.{
  Offsets, read_int, read_offset_entry, read_offsets, read_key_block, read_value_block, block_name,
  entries_offset,
}

-- `hive_value`
pub record HiveValue : Type 0 where
  pub type : ℕ
  pub name : Bytes
  pub bytes : Bytes

-- `raw_hive_value`
pub record RawHiveValue : Type 0 where
  pub type : ℕ
  pub name : Bytes
  pub bytes : Bytes
  pub parsed : Bool
  pub data_offset : ℕ
  pub data_length : ℕ

abbrev pub Values : Type 0
Values = List (Bytes × RawHiveValue)

-- The constants of a `hive_key`.
pub record Place : Type 0 where
  pub subkey_block_offset : ℕ
  pub value_count : ℕ
  pub value_offsets : ℕ

-- `hive_key`: its constants, `parsed_`, `values_` and `sub_keys_`.
mutual
  pub data HiveKey : Type 0 where
    hive_key : Place → Bool → Values → SubKeys → HiveKey

  pub data SubKeys : Type 0 where
    no_keys : SubKeys
    sub_key : Bytes → HiveKey → SubKeys → SubKeys

abbrev pub place_of : HiveKey → Place
place_of (hive_key p parsed vs ks) = p

abbrev pub values_of : HiveKey → Values
values_of (hive_key p parsed vs ks) = vs

abbrev pub sub_keys_of : HiveKey → SubKeys
sub_keys_of (hive_key p parsed vs ks) = ks

abbrev pub with_values : HiveKey → Values → HiveKey
with_values (hive_key p parsed _ ks) vs = hive_key p parsed vs ks

abbrev pub with_sub_keys : HiveKey → SubKeys → HiveKey
with_sub_keys (hive_key p parsed vs _) ks = hive_key p parsed vs ks

-- A key that has not been parsed.
abbrev pub new_key : Place → HiveKey
new_key p = hive_key p false [] no_keys

-- `values_.find(name)` and `values_[name] = value`
unfoldable pub find_value : Bytes → Values → Option RawHiveValue
find_value name [] = none
find_value name ((n, v) ∷ vs) = if same_name n name then some v else find_value name vs

unfoldable pub assign_value : Bytes → RawHiveValue → Values → Values
assign_value name v [] = (name, v) ∷ []
assign_value name v ((n, w) ∷ vs) =
    if same_name n name then (n, v) ∷ vs else (n, w) ∷ assign_value name v vs

-- `sub_keys_.find(name)`, a change of the key that it finds, and `sub_keys_.emplace(name, key)`
unfoldable pub find_key : Bytes → SubKeys → Option HiveKey
find_key name no_keys = none
find_key name (sub_key n k ks) = if same_name n name then some k else find_key name ks

unfoldable pub set_key : Bytes → HiveKey → SubKeys → SubKeys
set_key name k no_keys = no_keys
set_key name k (sub_key n j ks) =
    if same_name n name then sub_key n k ks else sub_key n j (set_key name k ks)

unfoldable pub emplace_key : Bytes → HiveKey → SubKeys → SubKeys
emplace_key name k no_keys = sub_key name k no_keys
emplace_key name k (sub_key n j ks) =
    if same_name n name then sub_key n j ks else sub_key n j (emplace_key name k ks)

-- `item.block_type[1] != 'f' && item.block_type[1] != 'h'`
unfoldable pub sub_key_rounds : Offsets → ℕ
sub_key_rounds item =
    if not (item.block_type_1 == b'f') && not (item.block_type_1 == b'h')
    then 0
    else rounds_short item.count

abbrev pub hive_value : RawHiveValue → HiveValue
hive_value v = record { type = v.type; name = v.name; bytes = v.bytes }

module _ (file : Bytes) where
  -- One round of the loop over the values. The sum of the offset and 4 is written as it wraps.
  unfoldable pub read_value : Place → ℕ → Result RawHiveValue
  read_value p i = do
    offset ← read_int file (add64 (at_root p.value_offsets) 4) i
    value ← read_value_block file (at_root offset)
    value_name ← block_name value.name value.name_len
    ok (record {
      type = value.value_type;
      name = value_name;
      bytes = [];
      parsed = false;
      data_offset = (if ltb value.size 0x80000000 then value.offset + 4 else offset + 12) % u32_mod;
      data_length = value.size % 0x10000;
    })

  unfoldable pub parse_values : Place → ℕ → ℕ → Values → Result (Unit {0}) × Values
  parse_values p zero i vs = (ok tt, vs)
  parse_values p (suc rounds) i vs = elim (read_value p i) [
    | ok v ↦ parse_values p rounds (i + 1) (assign_value (to_lower v.name) v vs)
    | thrown ↦ (thrown, vs)
  ]

  -- One round of the loop over the sub keys.
  unfoldable pub read_sub_key : Place → ℕ → Result (Bytes × Place)
  read_sub_key p i = do
    let entry_offsets = add64 (extend_int p.subkey_block_offset) entries_offset
    offset_entry ← read_offset_entry file (add64 main_root_offset entry_offsets) i
    subkey ← read_key_block file (at_root offset_entry.offset)
    subkey_name ← block_name subkey.name subkey.len
    ok (
      to_lower subkey_name,
      record {
        subkey_block_offset = subkey.subkeys;
        value_count = subkey.value_count;
        value_offsets = subkey.offsets;
      },
    )

  unfoldable pub parse_sub_keys : Place → ℕ → ℕ → SubKeys → Result (Unit {0}) × SubKeys
  parse_sub_keys p zero i ks = (ok tt, ks)
  parse_sub_keys p (suc rounds) i ks = elim (read_sub_key p i) [
    | ok (name, q) ↦ parse_sub_keys p rounds (i + 1) (emplace_key name (new_key q) ks)
    | thrown ↦ (thrown, ks)
  ]

  -- The part of `parse` for the sub keys.
  unfoldable pub parse_items : Place → SubKeys → Result (Unit {0}) × SubKeys
  unfolding parse_sub_keys sub_key_rounds
  parse_items p ks = elim (read_offsets file (at_root p.subkey_block_offset)) [
    | ok item ↦ parse_sub_keys p (sub_key_rounds item) 0 ks
    | thrown ↦ (thrown, ks)
  ]

  -- `parsed_` is set before anything is read.
  unfoldable pub parse : HiveKey → Result (Unit {0}) × HiveKey
  unfolding parse_values parse_items
  parse (hive_key p true vs ks) = (ok tt, hive_key p true vs ks)
  parse (hive_key p false vs ks) =
      let (read, vs') = parse_values p (rounds_int p.value_count) 0 vs in
      elim read [
        | ok _ ↦ let (r, ks') = parse_items p ks in (r, hive_key p true vs' ks')
        | thrown ↦ (thrown, hive_key p true vs' ks)
      ]

  -- Reads the data of a value if it has not been read.
  unfoldable pub load_value : RawHiveValue → Result RawHiveValue
  load_value v =
      let read = read_file_data file (at_root v.data_offset) v.data_length in
      if v.parsed then ok v else (read >>= λ bytes. ok (record v { bytes = bytes; parsed = true }))

  -- `hive_key::get_value` on a key that is parsed
  unfoldable pub value_in : Bytes → HiveKey → Result (Option HiveValue) × HiveKey
  unfolding load_value
  value_in name k = elim (find_value name (values_of k)) [
    | none ↦ (ok none, k)
    | some v ↦ elim (load_value v) [
      | ok w ↦ (ok (some (hive_value w)), with_values k (assign_value name w (values_of k)))
      | thrown ↦ (thrown, k)
    ]
  ]

  unfoldable pub get_value : Bytes → HiveKey → Result (Option HiveValue) × HiveKey
  unfolding parse value_in
  get_value name k =
      let (r, k') = parse k in elim r [ ok _ ↦ value_in name k' | thrown ↦ (thrown, k') ]

  -- `hive_parser::get_sub_key` with the use that is made of the key it finds: `missing` is the result
  -- for a null pointer.
  unfoldable pub visit :
      {A : Type 0} → (HiveKey → Result A × HiveKey) → A → List Bytes → HiveKey → Result A × HiveKey
  unfolding parse
  visit use_key missing [] k = use_key k
  visit use_key missing (part ∷ path) k =
      let (r, k') = parse k in
      elim r [
        | ok _ ↦ elim (find_key part (sub_keys_of k')) [
          | none ↦ (ok missing, k')
          | some child ↦
              let (r', child') = visit use_key missing path child in
              (r', with_sub_keys k' (set_key part child' (sub_keys_of k')))
        ]
        | thrown ↦ (thrown, k')
      ]

  -- Whether `hive_parser::get_sub_key` finds a key.
  unfoldable pub has_sub_key : List Bytes → HiveKey → Result Bool × HiveKey
  unfolding visit
  has_sub_key path k = visit (λ j. (ok true, j)) false path k

  -- `hive_parser::get_value`
  unfoldable pub value_at : List Bytes → Bytes → HiveKey → Result (Option HiveValue) × HiveKey
  unfolding visit get_value
  value_at path name k = visit (get_value name) none path k

  -- `parse_root_block`
  unfoldable pub parse_root_block : Result HiveKey
  parse_root_block =
      let r = read_key_block file main_key_block_offset in
      read_file_data file 0 4 >>= λ signature.
      if not (same_name signature (b'r' ∷ b'e' ∷ b'g' ∷ b'f' ∷ []))
      then thrown
      else (r >>= λ key_block. ok (
          new_key (record {
            subkey_block_offset = key_block.subkeys;
            value_count = key_block.value_count;
            value_offsets = key_block.offsets;
          })))
