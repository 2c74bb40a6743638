-- ===== src/Registry/Lookup.antt =====
-- src/windows-emulator/registry/registry_manager.cpp: keys and values of the registry come from the file
-- of the hive that is registered for them.
use mathlib.Core.Bool.{false≢true}
use emulator_momo.Common.{
  ◌≢◌, ◌≡◌, refl, sym, ap, ◌∙◌, subst, inl, inr, Bool, true, false, Option, none, some, [], ◌∷◌,
  ◌++◌, if◌then◌else◌, Bool-cases, ok, Text, same_name_self, same_name→eq, to_lower, arith,
}
use emulator_momo.Registry.Hive.{HiveValue, HiveKey, place_of, has_sub_key}
use emulator_momo.Registry.Listing.{listed_value, listed_sub_key}
use emulator_momo.Registry.Cached.{Cached}
use emulator_momo.Registry.Walk.{value_at-Agrees, has_sub_key-Agrees}
use emulator_momo.Registry.Manager.{
  FilePath, dot, PathFunctions, Hive, Hives, RegistryManager, RegistryKey, machine_root, same_path,
  is_subpath, put_hive, hive_of, find_hive, normalize_path, get_normal_key, get_key,
  get_registry_value,
}

same_path_self : (p : FilePath) → same_path p p ≡ true
unfolding same_path
same_path_self [] = refl
same_path_self (c ∷ p) = ground (arith, same_path_self p, same_name_self c)

same_path→eq : (p q : FilePath) → same_path p q ≡ true → p ≡ q
unfolding same_path
same_path→eq [] [] h = refl
same_path→eq [] (d ∷ q) h = cc
same_path→eq (c ∷ p) [] h = cc
same_path→eq (c ∷ p) (d ∷ q) h = ground (arith, same_path→eq p q, same_name→eq c d)

find_hive-is_subpath :
    (key k : FilePath) (h : Hive) (hives : Hives)
    → find_hive key hives ≡ some (k, h)
    → is_subpath k key ≡ true
unfolding find_hive
find_hive-is_subpath key k h [] e = cc
find_hive-is_subpath key k h ((j, g) ∷ hives) e = elim (Bool-cases (is_subpath j key)) [
  | inl f ↦ let e' : some (j, g) ≡ some (k, h) = rw f at e in let a : j ≡ k = cc e' in rw (← a) f
  | inr f ↦ let e' = rw f at e in find_hive-is_subpath key k h hives e'
]

-- A hive that is found for a key is the one of its path.
pub hive_of-find_hive :
    (key k : FilePath) (h : Hive) (hives : Hives)
    → find_hive key hives ≡ some (k, h)
    → hive_of k hives ≡ some h
unfolding hive_of find_hive
hive_of-find_hive key k h [] e = cc
hive_of-find_hive key k h ((j, g) ∷ hives) e = elim (Bool-cases (is_subpath j key)) [
  | inl f ↦
      let e' : some (j, g) ≡ some (k, h) = rw f at e in
      let a : j ≡ k = cc e' in let b : g ≡ h = cc e' in rw (a, same_path_self k) (ap some b)
  | inr f ↦
      let e' = rw f at e in
      elim (Bool-cases (same_path j k)) [
        | inl s ↦
            let below = find_hive-is_subpath key k h hives e' in
            let below' = rw (← same_path→eq j k s) at below in absurd (false≢true (sym f ∙ below'))
        | inr s ↦ rw s (hive_of-find_hive key k h hives e')
      ]
]

hive_of-put_hive :
    (k : FilePath) (h : Hive) (hives : Hives) → hive_of k (put_hive k h hives) ≡ some h
unfolding hive_of put_hive
hive_of-put_hive k h [] = rw (same_path_self k) refl
hive_of-put_hive k h ((j, g) ∷ hives) = ground (arith, hive_of-put_hive k h hives)

-- Each hive agrees with its file.
abbrev pub AllCached : Hives → Type 0
AllCached [] = Unit {0}
AllCached ((k, h) ∷ hives) = Cached h.file h.root_key × AllCached hives

pub AllCached-put_hive :
    (k : FilePath) (h : Hive) (hives : Hives)
    → AllCached hives
    → Cached h.file h.root_key
    → AllCached (put_hive k h hives)
unfolding put_hive
AllCached-put_hive k h [] c d = (d, tt)
AllCached-put_hive k h ((j, g) ∷ hives) c d = elim (Bool-cases (same_path j k)) [
  | inl f ↦ rw f (d, c.1)
  | inr f ↦ rw f (c.0, AllCached-put_hive k h hives c.1 d)
]

pub AllCached-hive_of :
    (k : FilePath) (h : Hive) (hives : Hives)
    → AllCached hives
    → hive_of k hives ≡ some h
    → Cached h.file h.root_key
unfolding hive_of
AllCached-hive_of k h [] c e = cc
AllCached-hive_of k h ((j, g) ∷ hives) c e = elim (Bool-cases (same_path j k)) [
  | inl f ↦
      let e' : some g ≡ some h = rw f at e in
      let b : g ≡ h = cc e' in subst (λ (x : Hive). Cached x.file x.root_key) b c.0
  | inr f ↦ let e' = rw f at e in AllCached-hive_of k h hives c.1 e'
]

module _ (paths : PathFunctions) (m : RegistryManager) (c : AllCached m.hives) where
  -- The key below the hive at `k`, in the two ways that the relative path can be.
  module _ (k : FilePath) (h : Hive) (normal_key : FilePath)
      (found : find_hive normal_key m.hives ≡ some (k, h)) where
    h_Cached : Cached h.file h.root_key
    h_Cached = AllCached-hive_of k h m.hives c (hive_of-find_hive normal_key k h m.hives found)

    abbrev with_root : HiveKey → RegistryManager
    with_root root_key = record m { hives = put_hive k (record h { root_key = root_key }) m.hives }

    get_normal_key_below :
        (part : Text) (rest : FilePath) (b : Bool)
        → paths.lexically_relative normal_key k ≡ part ∷ rest
        → listed_sub_key h.file (part ∷ rest) (place_of h.root_key) ≡ ok b
        → (root_key : HiveKey) × (get_normal_key paths normal_key m ≡ (
          ok (if b then some (record { hive = k; path = part ∷ rest }) else none),
          with_root root_key,
        ))
          × Cached h.file root_key
          × (place_of root_key ≡ place_of h.root_key)
    unfolding get_normal_key
    get_normal_key_below part rest b e listed =
        let agrees = has_sub_key-Agrees h.file (part ∷ rest) h.root_key h_Cached in
        let agrees' = rw listed at agrees in
        (
          (has_sub_key h.file (part ∷ rest) h.root_key).1,
          rw (get_normal_key, found, e) (rw (e, agrees'.0) refl),
          agrees'.1,
          agrees'.2,
        )

    -- What `get_value` reads, once the key is found.
    get_registry_value_at :
        (path : FilePath) (name : Text) (root_key : HiveKey) (v : Option HiveValue)
        → Cached h.file root_key
        → place_of root_key ≡ place_of h.root_key
        → listed_value h.file path (to_lower name) (place_of h.root_key) ≡ ok v
        → (get_registry_value paths (record { hive = k; path = path }) name (with_root root_key)).0
          ≡ ok v
    unfolding get_registry_value
    get_registry_value_at path name root_key v d same listed =
        let agrees = value_at-Agrees h.file path (to_lower name) root_key d in
        let agrees' = rw same at agrees in
        let agrees'' = rw listed at agrees' in
        rw (get_registry_value, hive_of-put_hive k (record h { root_key = root_key }) m.hives)
          agrees''.0

-- A path whose normal form leads through a hive, to an element below its path that is not empty: the registry has the key exactly where
-- the file of the hive lists it, and a value of the key is the one that the file lists under the name
-- in lower case.
pub get_key-get_registry_value :
    (paths : PathFunctions) (m : RegistryManager) (key k : FilePath) (part : Text) (rest : FilePath)
    (h : Hive) (name : Text) (b : Bool) (v : Option HiveValue)
    → AllCached m.hives
    → normalize_path paths m key ≡ k ++ part ∷ rest
    → is_subpath (k ++ part ∷ rest) machine_root ≡ false
    → find_hive (k ++ part ∷ rest) m.hives ≡ some (k, h)
    → part ≢ []
    → listed_sub_key h.file (part ∷ rest) (place_of h.root_key) ≡ ok b
    → listed_value h.file (part ∷ rest) (to_lower name) (place_of h.root_key) ≡ ok v
    → let reg_key : RegistryKey = record { hive = k; path = part ∷ rest } in
      ((get_key paths key m).0 ≡ ok (if b then some reg_key else none))
      × ((get_registry_value paths reg_key name (get_key paths key m).1).0 ≡ ok v)
unfolding get_key
get_key-get_registry_value paths m key k part rest h name b v c normal other found named has_key
      has_value =
    let below = paths.relative_below k part rest named in
    let (root_key, e, d, same) =
      get_normal_key_below paths m c k h (k ++ part ∷ rest) found part rest b below has_key in
    rw (normal, other, e)
      (
        refl,
        get_registry_value_at paths m c k h (k ++ part ∷ rest) found (part ∷ rest) name root_key v d
            same has_value,
      )

-- The path of a hive itself is no key: the registry asks the hive for a sub key `.`.
get_key_of_hive :
    (paths : PathFunctions) (m : RegistryManager) (key k : FilePath) (h : Hive)
    → AllCached m.hives
    → normalize_path paths m key ≡ k
    → is_subpath k machine_root ≡ false
    → find_hive k m.hives ≡ some (k, h)
    → listed_sub_key h.file (dot ∷ []) (place_of h.root_key) ≡ ok false
    → (get_key paths key m).0 ≡ ok none
unfolding get_key
get_key_of_hive paths m key k h c normal other found no_dot =
    let (root_key, e, d, same) =
      get_normal_key_below paths m c k h k found dot [] false (paths.relative_same k) no_dot in
    rw (normal, other, e) refl
