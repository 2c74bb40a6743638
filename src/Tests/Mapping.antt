-- ===== src/Tests/Mapping.antt =====
-- Tests of the mapping of modules on small images.
use emulator_momo.Common.{
  ◌∷◌, ℕ, ◌≡◌, refl, true, false, some, [], ◌++◌, lookup, put, Result, ok, Text, codes, add64,
  sub64, arith,
}
use emulator_momo.Serialization.Buffer.{Bytes, to_bytes}
use emulator_momo.Memory.Address.{page_align_up, align_up, align_down}
use emulator_momo.Memory.Protection.{read_only}
use emulator_momo.Memory.Manager.{allocate_memory}
use emulator_momo.Memory.Reserved.{overlaps_reserved_region, ReservedRegionMap}
use emulator_momo.Memory.Reserved.Valid.{IsValid}
use emulator_momo.Modules.{MappedModule}
use emulator_momo.Modules.Accessor.{get_pointer_for_range}
use emulator_momo.Modules.Headers.{Directory, NtHeaders, get_nt_headers_offset, get_nt_headers}
use emulator_momo.Modules.Exports.{collect_exports}
use emulator_momo.Modules.Relocations.{apply_relocations}
use emulator_momo.Modules.Mapping.{Backend, Emulator, map_module_from_data}
use emulator_momo.Modules.Mapping.Places.{Mapped, map_module_from_data-Mapped}
use emulator_momo.Modules.Manager.{
  ModuleManager, unmap, map_module, canonicalize_module_path, find_path,
}
use emulator_momo.Modules.Registered.{map_module-map_module}
use emulator_momo.Modules.Unmapped.{Unmapped, unmap-map_module_from_data}
use emulator_momo.Tests.Hive.{zeros}

-- A memory that takes every write and reads as zeros.
abbrev blank : Backend
blank = record {
  Memory = Unit {0};
  perform = λ c m. m;
  write_memory = λ address bytes m. ok m;
  read_memory = λ address size m. ok (zeros size);
}

abbrev empty : Emulator blank
empty = record { regions = []; memory = tt }

-- An image with its headers alone, at 0x140000000, one byte long, that is entered at its start.
executable : Bytes
unfolding zeros to_bytes
executable =
    zeros 60
    ++ (to_bytes 4 64
        ++ (zeros 4
            ++ (to_bytes 2 0x8664
                ++ (zeros 42
                    ++ (to_bytes 8 0x140000000 ++ (zeros 24 ++ (to_bytes 4 1 ++ zeros 180)))))))

abbrev headers : NtHeaders
headers =
    let none_at : Directory = record { virtual_address = 0; size = 0 } in
    record {
      machine = 0x8664;
      number_of_sections = 0;
      size_of_optional_header = 0;
      characteristics = 0;
      address_of_entry_point = 0;
      image_base = 0x140000000;
      size_of_image = 1;
      size_of_headers = 0;
      dll_characteristics = 0;
      export_directory = none_at;
      relocation_directory = none_at;
    }

abbrev mapped : MappedModule
mapped = record {
  name = codes "a.exe";
  path = codes "C:/a.exe";
  image_base = 0x140000000;
  size_of_image = 0x1000;
  entry_point = 0x140000000;
  exports = [];
  address_names = [];
  sections = [];
}

abbrev taken : ReservedRegionMap
unfolding page_align_up
taken = (allocate_memory [] 0x140000000 0x1000 read_only false).regions

executable-mapped :
    map_module_from_data blank true executable (codes "a.exe") (codes "C:/a.exe") empty
    ≡ (ok mapped, record { regions = taken; memory = tt })
unfolding map_module_from_data executable get_nt_headers_offset get_nt_headers allocate_memory
    overlaps_reserved_region get_pointer_for_range apply_relocations sub64 collect_exports
    page_align_up align_up align_down add64
executable-mapped = refl

nothing-IsValid : IsValid []
nothing-IsValid = record { reserved = omega arith; committed = tt }

map_module_from_data-Mapped_example :
    (nt_headers_offset : ℕ) × (h : NtHeaders) × (get_nt_headers_offset executable
      ≡ ok nt_headers_offset)
    × (get_nt_headers nt_headers_offset executable ≡ ok h)
    × Mapped blank [] taken (codes "C:/a.exe") h mapped
map_module_from_data-Mapped_example =
    map_module_from_data-Mapped blank true executable (codes "a.exe") (codes "C:/a.exe") empty
      (record { regions = taken; memory = tt }) mapped executable-mapped nothing-IsValid
      (omega arith) (omega arith)

unmap-map_module_from_data_example :
    (u : ModuleManager blank) × (unmap blank 0x140000000 (record {
      emulator = record { regions = taken; memory = tt };
      modules = (0x140000000, mapped) ∷ [];
    })
      ≡ (some true, u))
    × Unmapped blank [] 0x140000000
        (record {
          emulator = record { regions = taken; memory = tt };
          modules = (0x140000000, mapped) ∷ [];
        })
        u
unfolding lookup
unmap-map_module_from_data_example =
    unmap-map_module_from_data blank true executable (codes "a.exe") (codes "C:/a.exe") empty
      (record { regions = taken; memory = tt }) mapped 0x140000000 ((0x140000000, mapped) ∷ [])
      executable-mapped nothing-IsValid (omega arith) (omega arith) refl

-- The same image, whose headers claim to be 0x1000 bytes long.
short : Bytes
unfolding zeros to_bytes
short =
    zeros 60
    ++ (to_bytes 4 64
        ++ (zeros 4
            ++ (to_bytes 2 0x8664
                ++ (zeros 42
                    ++ (to_bytes 8 0x140000000
                        ++ (zeros 24 ++ (to_bytes 4 1 ++ (to_bytes 4 0x1000 ++ zeros 176))))))))

abbrev short_headers : NtHeaders
short_headers = record headers { size_of_headers = 0x1000 }

-- A host with one file.
abbrev canonical : Text → Result Text
canonical file = ok (codes "C:/a.exe")

abbrev filename : Text → Text
filename path = codes "a.exe"

abbrev read_file : Text → Bytes
read_file path = executable

abbrev no_modules : ModuleManager blank
no_modules = record { emulator = empty; modules = [] }

canonical-plain : canonicalize_module_path canonical (codes "a.exe") ≡ ok (codes "C:/a.exe")
unfolding canonicalize_module_path
canonical-plain = refl

canonical-nt : canonicalize_module_path canonical (codes "\\??\\a.exe") ≡ ok (codes "C:/a.exe")
unfolding canonicalize_module_path
canonical-nt = refl

maps :
    (map_module blank true canonical filename read_file (codes "a.exe") no_modules).0
    ≡ ok (some mapped)
unfolding map_module canonicalize_module_path lookup put find_path map_module_from_data executable
    get_nt_headers_offset get_nt_headers allocate_memory overlaps_reserved_region
    get_pointer_for_range apply_relocations sub64 collect_exports page_align_up align_up align_down
    add64
maps = refl

map_module-map_module_example :
    map_module blank true canonical filename read_file
      (codes "\\??\\a.exe")
      (map_module blank true canonical filename read_file (codes "a.exe") no_modules).1
    ≡ (
      ok (some mapped),
      (map_module blank true canonical filename read_file (codes "a.exe") no_modules).1,
    )
map_module-map_module_example =
    map_module-map_module blank true canonical filename read_file (codes "a.exe")
      (codes "\\??\\a.exe") (codes "C:/a.exe") no_modules mapped canonical-plain canonical-nt maps
      refl
