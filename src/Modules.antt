-- ===== src/Modules.antt =====
-- src/windows-emulator/module (from the repository root): the modules that are mapped, and the lookup of
-- a module by an address.
pub mod Accessor
pub mod Headers
pub mod Exports
pub mod Relocations
pub mod Names
pub mod Strings
pub mod Mapping
pub mod Manager
pub mod Registered
pub mod Unmapped
use emulator_momo.Common.{
  Text, ℕ, Bool, ◌&&◌, Option, none, some, List, [], ◌∷◌, Dict, ltb, leb, if◌then◌else◌, add64,
  same_name,
}
use emulator_momo.Memory.Region.{Permission}

-- `exported_symbol`
pub record ExportedSymbol : Type 0 where
  pub name : Text
  pub ordinal : ℕ
  pub rva : ℕ
  pub address : ℕ

-- `mapped_section`, with the fields of its region
pub record MappedSection : Type 0 where
  pub name : Text
  pub start : ℕ
  pub length : ℕ
  pub permissions : Permission

-- `mapped_module`
pub record MappedModule : Type 0 where
  pub name : Text
  pub path : Text
  pub image_base : ℕ
  pub size_of_image : ℕ
  pub entry_point : ℕ
  pub exports : List ExportedSymbol
  pub address_names : Dict Text
  pub sections : List MappedSection

abbrev pub is_within : MappedModule → ℕ → Bool
is_within mod_ address =
    leb mod_.image_base address && ltb address (add64 mod_.image_base mod_.size_of_image)

-- `find_export`, on the exports.
unfoldable pub find_export : List ExportedSymbol → Text → ℕ
unfolding same_name
find_export [] export_name = 0
find_export (symbol ∷ symbols) export_name =
    if same_name symbol.name export_name then symbol.address else find_export symbols export_name

-- `get_module`: the entry before `upper_bound(address)`.
unfoldable pub get_module : Dict MappedModule → ℕ → Option (ℕ × MappedModule)
get_module [] address = none
get_module ((base, mod_) ∷ modules) address =
    let behind = get_module modules address in
    if ltb address base then none else elim behind [ none ↦ some (base, mod_) | some e ↦ some e ]

unfoldable pub find_by_address : Dict MappedModule → ℕ → Option MappedModule
unfolding get_module
find_by_address modules address = elim (get_module modules address) [
  | none ↦ none
  | some e ↦ some e.1
]
