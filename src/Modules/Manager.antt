-- ===== src/Modules/Manager.antt =====
-- src/windows-emulator/module/module_manager.cpp: `map_module` and `unmap`.
use emulator_momo.Common.{
  ℕ, Bool, true, false, Option, none, some, [], ◌∷◌, Dict, lookup, erase, emplace, if◌then◌else◌,
  Result, ok, thrown, Text, same_name, codes,
}
use emulator_momo.Serialization.Buffer.{Bytes}
use emulator_momo.Memory.Manager.{release_memory}
use emulator_momo.Modules.{MappedModule}
use emulator_momo.Modules.Mapping.{Backend, Emulator, settle, map_module_from_data}

-- The module of a path, in the order of the bases.
unfoldable pub find_path : Text → Dict MappedModule → Option MappedModule
unfolding same_name
find_path path [] = none
find_path path ((base, m) ∷ modules) =
    if same_name m.path path then some m else find_path path modules

abbrev pub nt_prefix : Text
nt_prefix = codes "\\??\\"

-- `canonicalize_module_path`: the prefix is taken off as often as it stands there. `canonical` is what the
-- host makes of a path; it throws where there is no such file.
unfoldable pub canonicalize_module_path : (Text → Result Text) → Text → Result Text
unfolding same_name
canonicalize_module_path canonical (a ∷ b ∷ c ∷ d ∷ file) =
    let rest = canonicalize_module_path canonical file in
    if same_name (a ∷ b ∷ c ∷ d ∷ []) nt_prefix then rest else canonical (a ∷ b ∷ c ∷ d ∷ file)
canonicalize_module_path canonical file = canonical file

module _ (backend : Backend) where
  -- `module_manager` with its emulator
  pub record ModuleManager : Type 0 where
    pub emulator : Emulator backend
    pub modules : Dict MappedModule

  -- What the host knows of a path: its canonical form, its file name, and what the file holds.
  module _ (os_windows : Bool) (canonical : Text → Result Text) (filename : Text → Text)
      (read_file : Text → Bytes) where
    -- `map_module_from_file`
    unfoldable pub map_module_from_file :
        Text → Emulator backend → Result MappedModule × Emulator backend
    map_module_from_file path s =
        let mapped =
          map_module_from_data backend os_windows (read_file path) (filename path) path s in
        elim (read_file path) [ [] ↦ (thrown, s) | _ ∷ _ ↦ mapped ]

    -- `map_module` on a canonical path: the module, or `none` for a null pointer.
    unfoldable pub map_canonical : Text → ModuleManager → Option MappedModule × ModuleManager
    unfolding map_module_from_file
    map_canonical path s =
        let (r, emulator) = map_module_from_file path s.emulator in
        elim (find_path path s.modules) [
          | some m ↦ (some m, s)
          | none ↦ elim r [
            | thrown ↦ (none, record s { emulator = emulator })
            | ok m ↦
                let modules = emplace m.image_base m s.modules in
                (lookup m.image_base modules, record { emulator = emulator; modules = modules })
          ]
        ]

    -- `map_module`. The path is made canonical outside the `try`.
    unfoldable pub map_module : Text → ModuleManager → Result (Option MappedModule) × ModuleManager
    unfolding map_canonical
    map_module file s = elim (canonicalize_module_path canonical file) [
      | thrown ↦ (thrown, s)
      | ok path ↦ let (m, s') = map_canonical path s in (ok m, s')
    ]

  -- `unmap`. What `unmap_module` returns is not looked at; the value is `none` if it throws.
  unfoldable pub unmap : ℕ → ModuleManager → Option Bool × ModuleManager
  unmap address s = elim (lookup address s.modules) [
    | none ↦ (some false, s)
    | some m ↦ elim (release_memory s.emulator.regions m.image_base m.size_of_image) [
      | thrown ↦ (none, s)
      | ok o ↦ (
        some true,
        record { emulator = settle backend o s.emulator; modules = erase address s.modules },
      )
    ]
  ]
