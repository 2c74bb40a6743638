-- ===== src/Tests/Hive.antt =====
-- Tests of the hive files: a small hive file, and the theorems at it.
use emulator_momo.Common.{
  ℕ, zero, suc, ◌≡◌, refl, false, some, List, [], ◌∷◌, ◌++◌, ok, thrown, Text, codes, same_name,
  to_lower, add64,
}
use emulator_momo.Serialization.Buffer.{Bytes, to_bytes}
use emulator_momo.Registry.File.{read_file_data, at_root, rounds_int, rounds_short, extend_int}
use emulator_momo.Registry.Blocks.{
  read_key_block, read_value_block, read_int, read_offsets, read_offset_entry, block_name,
}
use emulator_momo.Registry.Listing.{
  listed_value, listed_sub_key, follow, value_of, listing, collect, listed_keys, first_named,
  last_named, loaded_option, loaded,
}
use emulator_momo.Registry.Hive.{
  read_sub_key, read_value, sub_key_rounds, get_value, new_key, Place, parse_root_block,
}
use emulator_momo.Registry.Stopped.{reached}
use emulator_momo.Registry.Questions.{
  Question, ask_sub_key, ask_value, sub_key_found, value_found, ask_all, read_answers, until_thrown,
  hive-read_answers, get_value_stopped,
}

unfoldable pub zeros : ℕ → Bytes
zeros zero = []
zeros (suc n) = 0 ∷ zeros n

-- A name in a field of 256 bytes.
abbrev named : Text → ℕ → Bytes
named name rest = name ++ zeros rest

-- The root key with one sub key `Run`, which has one value `Path` with four bytes of data in its block.
unfoldable pub hive_file : Bytes
unfolding zeros to_bytes
hive_file =
    codes "regf"
    ++ zeros 4124
    ++ zeros 32
    ++ to_bytes 4 0x170
    ++ zeros 12
    ++ zeros 288
    ++ zeros 4
    ++ codes "lf"
    ++ to_bytes 2 1
    ++ to_bytes 4 0x180
    ++ zeros 4
    ++ zeros 40
    ++ to_bytes 4 1
    ++ to_bytes 4 0x2D0
    ++ zeros 28
    ++ to_bytes 2 3
    ++ zeros 2
    ++ codes "Run"
    ++ zeros 253
    ++ zeros 4
    ++ to_bytes 4 0x2D8
    ++ zeros 6
    ++ to_bytes 2 4
    ++ to_bytes 4 0x80000004
    ++ codes "text"
    ++ to_bytes 4 1
    ++ zeros 4
    ++ codes "Path"
    ++ zeros 252

abbrev pub root_place : Place
root_place = record { subkey_block_offset = 0x170; value_count = 0; value_offsets = 0 }

pub opens : parse_root_block hive_file ≡ ok (new_key root_place)
unfolding parse_root_block hive_file read_file_data same_name read_key_block
opens = refl

questions : List Question
questions = ask_value (codes "run" ∷ []) (codes "path") ∷ ask_sub_key (codes "stop" ∷ []) ∷ []

-- The data stands in the block of the value.
answers_run :
    read_answers hive_file questions root_place
    ≡ ok (value_found (some (record { type = 1; name = codes "Path"; bytes = codes "text" })))
      ∷ ok (sub_key_found false)
      ∷ []
unfolding hive_file questions read_answers listed_value listed_sub_key follow value_of listing
    collect listed_keys read_offsets at_root rounds_int rounds_short sub_key_rounds first_named
    last_named same_name to_lower read_sub_key read_value block_name read_int read_value_block
    read_key_block read_offset_entry loaded_option loaded read_file_data extend_int add64
answers_run = refl

hive-read_answers_example :
    until_thrown (ask_all hive_file questions (new_key root_place))
    ≡ until_thrown (read_answers hive_file questions root_place)
hive-read_answers_example = hive-read_answers hive_file questions (new_key root_place) opens

-- The values of the key `Run`, with a count that leads out of the file behind the second value.
abbrev cut_place : Place
cut_place = record { subkey_block_offset = 0x170; value_count = 3; value_offsets = 0x2D0 }

cut_listing : listing hive_file cut_place ≡ thrown
unfolding hive_file listing collect rounds_int read_value read_int read_value_block block_name
    at_root extend_int add64 read_file_data
cut_listing = refl

-- The value in front of the block that cannot be read is found.
path_reached :
    loaded_option hive_file
      (last_named (codes "path") (reached hive_file cut_place (rounds_int 3) 0))
    ≡ ok (some (record { type = 1; name = codes "Path"; bytes = codes "text" }))
unfolding hive_file reached rounds_int read_value read_int read_value_block block_name at_root
    extend_int add64 read_file_data last_named loaded_option loaded same_name to_lower
path_reached = refl

get_value_stopped_example :
    ((get_value hive_file (codes "stop") (new_key cut_place)).0 ≡ thrown)
    × ((get_value hive_file
          (codes "path")
          (get_value hive_file (codes "stop") (new_key cut_place)).1).0
        ≡ loaded_option hive_file
            (last_named (codes "path") (reached hive_file cut_place (rounds_int 3) 0)))
get_value_stopped_example =
    get_value_stopped hive_file (codes "stop") (codes "path") cut_place cut_listing
