-- ===== src/Registry/Manager.antt =====
-- src/windows-emulator/registry/registry_manager.cpp: the registry as the hives that are registered
-- under paths. A path is the list of its elements as
-- Windows splits it, where a backslash is a separator; a wide character and a narrow one are the same
-- code.
use emulator_momo.Common.{
  ◌≡◌, ◌≢◌, Bool, true, false, ◌&&◌, Option, none, some, List, [], ◌∷◌, ◌++◌, map, if◌then◌else◌,
  Result, ok, thrown, ◌>>=◌, Text, same_name, to_lower, codes,
}
use emulator_momo.Serialization.Buffer.{Bytes}
use emulator_momo.Registry.Hive.{HiveValue, HiveKey, has_sub_key, value_at, parse_root_block}

abbrev pub FilePath : Type 0
FilePath = List Text

abbrev pub dot : Text
dot = codes "."

-- What `std::filesystem::path` does. The last element of a path is empty where it ends with a separator, and a
-- relative path that would start with such an element is `.`.
pub record PathFunctions : Type 0 where
  pub lexically_normal : FilePath → FilePath
  pub lexically_relative : FilePath → FilePath → FilePath
  pub relative_below :
      (base : FilePath) (part : Text) (rest : FilePath)
      → part ≢ []
      → lexically_relative (base ++ part ∷ rest) base ≡ part ∷ rest
  pub relative_same : (base : FilePath) → lexically_relative base base ≡ dot ∷ []

-- `hive_parser`: its file and its root key.
pub record Hive : Type 0 where
  pub file : Bytes
  pub root_key : HiveKey

abbrev pub Hives : Type 0
Hives = List (FilePath × Hive)

-- `registry_manager`. The maps are in the order in which they are walked.
pub record RegistryManager : Type 0 where
  pub hives : Hives
  pub path_mapping : List (FilePath × FilePath)

pub record RegistryKey : Type 0 where
  pub hive : FilePath
  pub path : FilePath

abbrev pub registry_root : FilePath
registry_root = codes "\\" ∷ codes "registry" ∷ []

abbrev pub machine_root : FilePath
machine_root = codes "\\" ∷ codes "registry" ∷ codes "machine" ∷ []

unfoldable pub same_path : FilePath → FilePath → Bool
same_path [] [] = true
same_path [] (q ∷ qs) = false
same_path (p ∷ ps) [] = false
same_path (p ∷ ps) (q ∷ qs) = same_name p q && same_path ps qs

-- Whether `p` starts with `root`.
unfoldable pub is_subpath : FilePath → FilePath → Bool
is_subpath [] p = true
is_subpath (r ∷ root) [] = false
is_subpath (r ∷ root) (q ∷ p) = same_name r q && is_subpath root p

-- `hives_[key] = hive`, `hives_.find(key)` and a change of the hive that it finds
unfoldable pub put_hive : FilePath → Hive → Hives → Hives
put_hive key h [] = (key, h) ∷ []
put_hive key h ((k, g) ∷ hives) =
    if same_path k key then (k, h) ∷ hives else (k, g) ∷ put_hive key h hives

unfoldable pub hive_of : FilePath → Hives → Option Hive
hive_of key [] = none
hive_of key ((k, h) ∷ hives) = if same_path k key then some h else hive_of key hives

unfoldable pub find_hive : FilePath → Hives → Option (FilePath × Hive)
find_hive key [] = none
find_hive key ((k, h) ∷ hives) = if is_subpath k key then some (k, h) else find_hive key hives

module _ (paths : PathFunctions) where
  unfoldable pub canonicalize_path : FilePath → FilePath
  canonicalize_path key = map to_lower (paths.lexically_normal key)

  -- The loop of `normalize_path`, on the path in its canonical form.
  unfoldable pub apply_mapping : List (FilePath × FilePath) → FilePath → FilePath
  apply_mapping [] path = path
  apply_mapping ((from, to) ∷ mappings) path =
      if is_subpath from path
      then to ++ paths.lexically_relative path from
      else apply_mapping mappings path

  unfoldable pub normalize_path : RegistryManager → FilePath → FilePath
  unfolding canonicalize_path apply_mapping
  normalize_path m path = apply_mapping m.path_mapping (canonicalize_path path)

  -- `get_key`, on the path in its normal form.
  unfoldable pub get_normal_key :
      FilePath → RegistryManager → Result (Option RegistryKey) × RegistryManager
  get_normal_key normal_key m = elim (find_hive normal_key m.hives) [
    | none ↦ (ok none, m)
    | some (k, h) ↦
        let reg_key : RegistryKey = record {
          hive = k;
          path = paths.lexically_relative normal_key k;
        } in
        let (r, root_key) = has_sub_key h.file reg_key.path h.root_key in
        let hives = put_hive k (record h { root_key = root_key }) m.hives in
        elim reg_key.path [
          | [] ↦ (ok (some reg_key), m)
          | _ ∷ _ ↦
              (r >>= λ found. ok (if found then some reg_key else none), record m { hives = hives })
        ]
  ]

  unfoldable pub get_key :
      FilePath → RegistryManager → Result (Option RegistryKey) × RegistryManager
  unfolding normalize_path get_normal_key
  get_key key m =
      let normal_key = normalize_path m key in
      let reg_key : RegistryKey = record { hive = normal_key; path = [] } in
      if is_subpath normal_key machine_root
      then (ok (some reg_key), m)
      else get_normal_key normal_key m

  -- `registry_manager::get_value`
  unfoldable pub get_registry_value :
      RegistryKey → Text → RegistryManager → Result (Option HiveValue) × RegistryManager
  get_registry_value key name m = elim (hive_of key.hive m.hives) [
    | none ↦ (ok none, m)
    | some h ↦
        let (r, root_key) = value_at h.file key.path (to_lower name) h.root_key in
        (r, record m { hives = put_hive key.hive (record h { root_key = root_key }) m.hives })
  ]

  -- `files` holds the files that can be opened.
  module _ (files : FilePath → Option Bytes) where
    -- The constructor of `hive_parser`. Nothing can be read from a file that is not open.
    unfoldable pub new_hive : FilePath → Result Hive
    new_hive path = elim (files path) [
      | none ↦ thrown
      | some file ↦
          parse_root_block file >>= λ root_key. ok (record { file = file; root_key = root_key })
    ]

    unfoldable pub register_hive : FilePath → FilePath → Hives → Result Hives
    unfolding new_hive canonicalize_path
    register_hive key path hives =
        new_hive path >>= λ h. ok (put_hive (canonicalize_path key) h hives)

    unfoldable pub setup_registry : FilePath → Result RegistryManager
    unfolding register_hive
    setup_registry hive_path = do
      h1 ← register_hive (machine_root ++ codes "system" ∷ []) (hive_path ++ codes "SYSTEM" ∷ []) []
      h2 ←
          register_hive (machine_root ++ codes "security" ∷ []) (hive_path ++ codes "SECURITY" ∷ [])
            h1
      h3 ← register_hive (machine_root ++ codes "sam" ∷ []) (hive_path ++ codes "SAM" ∷ []) h2
      h4 ←
          register_hive (machine_root ++ codes "software" ∷ []) (hive_path ++ codes "SOFTWARE" ∷ [])
            h3
      h5 ← register_hive (machine_root ++ codes "system" ∷ []) (hive_path ++ codes "SYSTEM" ∷ []) h4
      h6 ←
          register_hive (machine_root ++ codes "hardware" ∷ []) (hive_path ++ codes "HARDWARE" ∷ [])
            h5
      h7 ←
          register_hive (registry_root ++ codes "user" ∷ []) (hive_path ++ codes "NTUSER.dat" ∷ [])
            h6
      let from = canonicalize_path (machine_root ++ codes "system" ∷ codes "CurrentControlSet" ∷ [])
      let to = canonicalize_path (machine_root ++ codes "system" ∷ codes "ControlSet001" ∷ [])
      ok (record { hives = h7; path_mapping = (from, to) ∷ [] })
