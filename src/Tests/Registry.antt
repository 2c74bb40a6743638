-- ===== src/Tests/Registry.antt =====
-- Tests of the registry on a small hive file.
use emulator_momo.Common.{
  ◌≡◌, ◌≢◌, refl, true, false, Option, some, [], ◌∷◌, ◌++◌, ap, Result, ok, Text, codes, same_name,
  to_lower, add64,
}
use emulator_momo.Serialization.Buffer.{Bytes}
use emulator_momo.Registry.File.{read_file_data, at_root, rounds_int, rounds_short, extend_int}
use emulator_momo.Registry.Blocks.{
  read_key_block, read_value_block, read_int, read_offsets, read_offset_entry, block_name,
}
use emulator_momo.Registry.Listing.{
  listed_value, listed_sub_key, follow, value_of, listing, collect, listed_keys, first_named,
  last_named, loaded_option, loaded,
}
use emulator_momo.Registry.Hive.{
  read_sub_key, read_value, sub_key_rounds, HiveValue, new_key, parse_root_block,
}
use emulator_momo.Registry.Manager.{
  FilePath, dot, PathFunctions, Hive, RegistryManager, RegistryKey, registry_root, machine_root,
  same_path, is_subpath, put_hive, find_hive, normalize_path, get_key, get_registry_value,
  setup_registry,
}
use emulator_momo.Registry.Lookup.{AllCached, get_key-get_registry_value}
use emulator_momo.Registry.Sessions.{started, asked_key, Session-AllCached}
use emulator_momo.Registry.Questions.{new_key-Cached}
use emulator_momo.Tests.Hive.{hive_file, root_place}

-- Paths that are normal, and the rest of a path behind its base.
behind : FilePath → FilePath → FilePath
behind [] p = p
behind (b ∷ base) [] = []
behind (b ∷ base) (c ∷ p) = behind base p

or_dot : FilePath → FilePath
or_dot [] = dot ∷ []
or_dot ([] ∷ p) = dot ∷ []
or_dot ((c ∷ part) ∷ p) = (c ∷ part) ∷ p

relative_below_lem :
    (base : FilePath) (part : Text) (rest : FilePath)
    → part ≢ []
    → or_dot (behind base (base ++ part ∷ rest)) ≡ part ∷ rest
unfolding behind or_dot
relative_below_lem [] [] rest h = absurd (h refl)
relative_below_lem [] (c ∷ part) rest h = refl
relative_below_lem (b ∷ base) part rest h = relative_below_lem base part rest h

relative_same_lem : (base : FilePath) → or_dot (behind base base) ≡ dot ∷ []
unfolding behind or_dot
relative_same_lem [] = refl
relative_same_lem (b ∷ base) = relative_same_lem base

abbrev plain_paths : PathFunctions
plain_paths = record {
  lexically_normal = λ p. p;
  lexically_relative = λ p base. or_dot (behind base p);
  relative_below = relative_below_lem;
  relative_same = relative_same_lem;
}

abbrev software : FilePath
software = machine_root ++ codes "software" ∷ []

abbrev hive : Hive
hive = record { file = hive_file; root_key = new_key root_place }

abbrev registry : RegistryManager
registry = record { hives = (software, hive) ∷ []; path_mapping = [] }

abbrev run_key : FilePath
run_key = codes "\\" ∷ codes "Registry" ∷ codes "Machine" ∷ codes "SOFTWARE" ∷ codes "Run" ∷ []

abbrev path_value : Option HiveValue
path_value = some (record { type = 1; name = codes "Path"; bytes = codes "text" })

run_key-normal : normalize_path plain_paths registry run_key ≡ software ++ codes "run" ∷ []
unfolding normalize_path to_lower
run_key-normal = refl

run_key-below : is_subpath (software ++ codes "run" ∷ []) machine_root ≡ false
unfolding is_subpath same_name
run_key-below = refl

run_key-hive : find_hive (software ++ codes "run" ∷ []) registry.hives ≡ some (software, hive)
unfolding find_hive is_subpath same_name
run_key-hive = refl

run_key-listed : listed_sub_key hive_file (codes "run" ∷ []) root_place ≡ ok true
unfolding hive_file listed_sub_key follow listing collect listed_keys read_offsets at_root
    rounds_int rounds_short sub_key_rounds first_named same_name to_lower read_sub_key block_name
    read_key_block read_offset_entry read_file_data extend_int add64
run_key-listed = refl

path_value-listed :
    listed_value hive_file (codes "run" ∷ []) (to_lower (codes "PATH")) root_place ≡ ok path_value
unfolding hive_file listed_value follow value_of listing collect listed_keys read_offsets at_root
    rounds_int rounds_short sub_key_rounds first_named last_named same_name to_lower read_sub_key
    read_value block_name read_int read_value_block read_key_block read_offset_entry loaded_option
    loaded read_file_data extend_int add64
path_value-listed = refl

get_key-get_registry_value_example :
    let reg_key : RegistryKey = record { hive = software; path = codes "run" ∷ [] } in
    ((get_key plain_paths run_key registry).0 ≡ ok (some reg_key))
    × ((get_registry_value plain_paths reg_key
          (codes "PATH")
          (get_key plain_paths run_key registry).1).0
        ≡ ok path_value)
get_key-get_registry_value_example =
    get_key-get_registry_value plain_paths registry run_key software (codes "run") [] hive
      (codes "PATH") true path_value (new_key-Cached hive_file root_place, tt) run_key-normal
      run_key-below run_key-hive (λ e. cc e) run_key-listed path_value-listed

no_dot : listed_sub_key hive_file (dot ∷ []) root_place ≡ ok false
unfolding hive_file listed_sub_key follow listing collect listed_keys read_offsets at_root
    rounds_int rounds_short sub_key_rounds first_named same_name to_lower read_sub_key block_name
    read_key_block read_offset_entry read_file_data extend_int add64
no_dot = refl

software-normal : normalize_path plain_paths registry software ≡ software
unfolding normalize_path to_lower
software-normal = refl

software-below : is_subpath software machine_root ≡ false
unfolding is_subpath same_name
software-below = refl

software-hive : find_hive software registry.hives ≡ some (software, hive)
unfolding find_hive is_subpath same_name
software-hive = refl

abbrev all_files : FilePath → Option Bytes
all_files path = some hive_file

abbrev hive_at : Text → FilePath × Hive
hive_at name = (machine_root ++ name ∷ [], hive)

abbrev set_up : RegistryManager
set_up = record {
  hives =
      hive_at (codes "system")
      ∷ hive_at (codes "security")
      ∷ hive_at (codes "sam")
      ∷ hive_at (codes "software")
      ∷ hive_at (codes "hardware")
      ∷ (registry_root ++ codes "user" ∷ [], hive)
      ∷ [];
  path_mapping =
      (
        machine_root ++ codes "system" ∷ codes "currentcontrolset" ∷ [],
        machine_root ++ codes "system" ∷ codes "controlset001" ∷ [],
      )
      ∷ [];
}

sets_up : setup_registry plain_paths all_files [] ≡ ok set_up
unfolding setup_registry hive_file parse_root_block read_file_data same_name read_key_block to_lower
    put_hive same_path
sets_up = refl

abbrev software_key : RegistryKey
software_key = record { hive = software; path = codes "run" ∷ [] }

set_up-normal : normalize_path plain_paths set_up run_key ≡ software ++ codes "run" ∷ []
unfolding normalize_path is_subpath same_name to_lower
set_up-normal = refl

set_up-hive : find_hive (software ++ codes "run" ∷ []) set_up.hives ≡ some (software, hive)
unfolding find_hive is_subpath same_name
set_up-hive = refl

asks : (get_key plain_paths run_key set_up).0 ≡ ok (some software_key)
asks =
    let c = new_key-Cached hive_file root_place in
    (get_key-get_registry_value plain_paths set_up run_key software (codes "run") [] hive
      (codes "PATH") true path_value (c, (c, (c, (c, (c, (c, tt)))))) set_up-normal run_key-below
      set_up-hive (λ e. cc e) run_key-listed path_value-listed).0

Session-AllCached_example : AllCached (get_key plain_paths run_key set_up).1.hives
Session-AllCached_example =
    Session-AllCached plain_paths all_files (get_key plain_paths run_key set_up).1 (
      asked_key run_key (started [] sets_up) (
        ap (λ (x : Result (Option RegistryKey)). (x, (get_key plain_paths run_key set_up).1)) asks))
