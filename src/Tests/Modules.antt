-- ===== src/Tests/Modules.antt =====
-- Tests of the relocations and the exports of images, and the theorems at small images.
use emulator_momo.Common.{
  ℕ, suc, ◌+◌, ◌*◌, ◌<◌, ◌≤◌, ◌≡◌, refl, ◌⊎◌, true, false, some, [], ◌∷◌, ◌++◌, lookup, put, Result,
  ok, codes, u64_mod, add64, sub64, length, ◌%◌, arith,
}
use emulator_momo.Serialization.Buffer.{Bytes, to_bytes}
use emulator_momo.Modules.{ExportedSymbol}
use emulator_momo.Modules.Accessor.{get_number}
use emulator_momo.Modules.Headers.{Directory, ExportDirectory, BaseRelocation, get_export_directory}
use emulator_momo.Modules.Exports.{collect_exports}
use emulator_momo.Modules.Names.{AreExports, first_name, collect_exports-AreExports}
use emulator_momo.Modules.Relocations.{
  image_rel_based_dir64, apply_entry, apply_entries, apply_relocations, entry_count, entries_of,
  is_last,
}
use emulator_momo.Modules.Relocations.Ends.{apply_relocations_ends}
use emulator_momo.Modules.Relocations.Value.{byte_at, apply_entry_dir64, apply_entries_skips}
use emulator_momo.Tests.Hive.{zeros}

-- A block of relocations for the page 0x10 with an entry for the 64-bit word at 0x10 + 0x14 and two that do nothing.
abbrev relocation_directory : Directory
relocation_directory = record { virtual_address = 0; size = 14 }

image : Bytes
unfolding to_bytes zeros
image =
    to_bytes 4 0x10
    ++ (to_bytes 4 14
        ++ (to_bytes 2 0xA014 ++ (zeros 4 ++ (zeros 22 ++ (to_bytes 8 0x140000123 ++ zeros 8)))))

-- Moved up by 0x1000
image_relocates :
    apply_relocations true 50 0x140001000 0x140000000 relocation_directory image
    ≡ some (
        ok (
          to_bytes 4 0x10
          ++ (to_bytes 4 14
              ++ (to_bytes 2 0xA014
                  ++ (zeros 4 ++ (zeros 22 ++ (to_bytes 8 0x140001123 ++ zeros 8)))))))
unfolding apply_relocations sub64 image to_bytes zeros
image_relocates = refl

-- A build with the larger header sees no entry.
image_is_left :
    apply_relocations false 50 0x140001000 0x140000000 relocation_directory image ≡ some (ok image)
unfolding apply_relocations sub64 image to_bytes zeros
image_is_left = refl

image_length : length image ≡ 52
unfolding image
image_length = refl

apply_relocations_ends_example :
    (r : Result Bytes) × (apply_relocations true
        (suc (suc (length image)))
        0x140001000
        0x140000000
        relocation_directory
        image
      ≡ some r)
apply_relocations_ends_example =
    apply_relocations_ends true 0x140001000 0x140000000 relocation_directory image (omega arith)
      (omega (arith, image_length))

word : Bytes
unfolding zeros to_bytes
word = zeros 4 ++ (to_bytes 8 0x140000123 ++ zeros 4)

word_moved : Bytes
unfolding zeros to_bytes
word_moved = zeros 4 ++ (to_bytes 8 0x140001123 ++ zeros 4)

word-value : get_number 8 (0 + 4) 0 word ≡ ok 0x140000123
unfolding get_number word
word-value = refl

word-applied : apply_entry 0x1000 0 (0x1000 * image_rel_based_dir64 + 4) word ≡ ok word_moved
unfolding apply_entry word word_moved
word-applied = refl

apply_entry_dir64_example :
    (get_number 8 (0 + 4) 0 word_moved ≡ ok ((0x140000123 + 0x1000 % u64_mod) % u64_mod))
    × ((i : ℕ) → (i < 0 + 4) ⊎ (0 + 4 + 8 ≤ i) → byte_at i word_moved ≡ byte_at i word)
apply_entry_dir64_example =
    apply_entry_dir64 0x1000 0 4 0x140000123 word word_moved (omega arith) (omega arith) word-value
      word-applied

abbrev block : BaseRelocation
block = record { virtual_address = 0x10; size_of_block = 14 }

block-applied : is_last false block ≡ false
unfolding is_last
block-applied = refl

apply_entries_skips_example :
    (entry_count true block ≡ entry_count false block + 2)
    × (apply_entries 0x1000 0x10 (entries_of false 0) (entry_count false block) 0 image
        ≡ apply_entries 0x1000 0x10 (entries_of true 0) (entry_count false block) 2 image)
apply_entries_skips_example = apply_entries_skips 0x1000 0 block image block-applied

-- One export: the name `f` of the function with the ordinal 0 at 0x99. The directory stands at 1.
abbrev export_directory : ExportDirectory
export_directory = record {
  base = 1;
  number_of_names = 1;
  address_of_functions = 41;
  address_of_names = 45;
  address_of_name_ordinals = 49;
}

exporting : Bytes
unfolding zeros to_bytes
exporting =
    zeros 17
    ++ (to_bytes 4 1
        ++ (zeros 4
            ++ (to_bytes 4 1
                ++ (to_bytes 4 41
                    ++ (to_bytes 4 45
                        ++ (to_bytes 4 49
                            ++ (to_bytes 4 0x99
                                ++ (to_bytes 4 51 ++ (zeros 2 ++ (codes "f" ++ zeros 1))))))))))

abbrev symbol : ExportedSymbol
symbol = record { name = codes "f"; ordinal = 1; rva = 0x99; address = 0x140000099 }

abbrev export_entry : Directory
export_entry = record { virtual_address = 1; size = 40 }

exporting-directory : get_export_directory 1 exporting ≡ ok export_directory
unfolding get_export_directory exporting
exporting-directory = refl

exporting-collected :
    collect_exports 0x140000000 export_entry exporting
    ≡ ok (symbol ∷ [], (0x140000099, codes "f") ∷ [])
unfolding collect_exports exporting add64 lookup put get_export_directory
exporting-collected = refl

collect_exports-AreExports_example :
    AreExports 0x140000000 export_directory exporting 0 (symbol ∷ [])
    × (length (symbol ∷ []) ≡ 1)
    × ((address : ℕ)
        → lookup address ((0x140000099, codes "f") ∷ []) ≡ first_name address (symbol ∷ []))
collect_exports-AreExports_example =
    collect_exports-AreExports 0x140000000 export_entry exporting export_directory (symbol ∷ [])
      ((0x140000099, codes "f") ∷ []) refl exporting-directory exporting-collected
