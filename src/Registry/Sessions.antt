-- ===== src/Registry/Sessions.antt =====
-- src/windows-emulator/registry/registry_manager.cpp: sessions with the registry, from `setup_registry` on.
use emulator_momo.Common.{
  ◌≡◌, ap, subst, inl, inr, Option, none, some, [], ◌∷◌, if◌then◌else◌, Bool-cases, Option-cases,
  Result, ok, thrown, ◌>>=◌, bind_ok, ok_injective, Text, to_lower,
}
use emulator_momo.Serialization.Buffer.{Bytes}
use emulator_momo.Registry.Hive.{
  HiveValue, HiveKey, Place, place_of, has_sub_key, value_at, parse_root_block,
}
use emulator_momo.Registry.Cached.{Cached}
use emulator_momo.Registry.Refines.{Agrees}
use emulator_momo.Registry.Walk.{value_at-Agrees, has_sub_key-Agrees, parse_root_block-Cached}
use emulator_momo.Registry.Manager.{
  FilePath, PathFunctions, Hive, Hives, RegistryManager, RegistryKey, machine_root, is_subpath,
  put_hive, hive_of, find_hive, canonicalize_path, normalize_path, get_normal_key, get_key,
  get_registry_value, new_hive, register_hive, setup_registry,
}
use emulator_momo.Registry.Lookup.{
  AllCached, AllCached-put_hive, AllCached-hive_of, hive_of-find_hive,
}

-- What ends normally leaves a key that agrees with the file.
Agrees-Cached :
    {A : Type 0} (file : Bytes) (p : Place) (r : Result A) (a : Result A × HiveKey) (x : A)
    → Agrees file p r a
    → a.0 ≡ ok x
    → Cached file a.1
Agrees-Cached file p (ok y) a x h e = h.1
Agrees-Cached file p thrown a x h e = absurd (cc (h, e))

module _ (paths : PathFunctions) where
  module _ (files : FilePath → Option Bytes) where
    new_hive-Cached :
        (path : FilePath) (h : Hive) → new_hive paths files path ≡ ok h → Cached h.file h.root_key
    unfolding new_hive
    new_hive-Cached path h e = elim (Option-cases (files path)) [
      | inl f ↦ let e' = rw (new_hive, f) at e in cc e'
      | inr (file, f) ↦
          let e' = rw (new_hive, f) at e in
          let (k, ek, e'') = bind_ok (parse_root_block file) _ h e' in
          let new : Hive = record { file = file; root_key = k } in
          let g : new ≡ h = ok_injective e'' in
          subst (λ (x : Hive). Cached x.file x.root_key) g (parse_root_block-Cached file k ek)
    ]

    -- One registration, with what follows.
    registered :
        (key path : FilePath) (hives : Hives) (rest : Hives → Result RegistryManager)
        (m : RegistryManager)
        → AllCached hives
        → ((h : Hives) → AllCached h → rest h ≡ ok m → AllCached m.hives)
        → (register_hive paths files key path hives >>= rest) ≡ ok m
        → AllCached m.hives
    unfolding register_hive
    registered key path hives rest m c next e =
        let (hs, e1, e2) =
          bind_ok
            (new_hive paths files path >>= λ h. ok (put_hive (canonicalize_path paths key) h hives))
            rest m e in
        let (h, e3, e4) =
          bind_ok (new_hive paths files path)
            (λ h. ok (put_hive (canonicalize_path paths key) h hives)) hs e1 in
        next hs
          (subst AllCached (ok_injective e4) (
            AllCached-put_hive (canonicalize_path paths key) h hives c (new_hive-Cached path h e3)))
          e2

    setup_registry-AllCached :
        (hive_path : FilePath) (m : RegistryManager)
        → setup_registry paths files hive_path ≡ ok m
        → AllCached m.hives
    unfolding setup_registry
    setup_registry-AllCached hive_path m = registered _ _ [] _ m tt λ h1 c1.
        registered _ _ h1 _ m c1 λ h2 c2. registered _ _ h2 _ m c2 λ h3 c3.
          registered _ _ h3 _ m c3 λ h4 c4. registered _ _ h4 _ m c4 λ h5 c5.
            registered _ _ h5 _ m c5 λ h6 c6.
              registered _ _ h6 _ m c6
                λ h7 c7 e. subst (λ (x : RegistryManager). AllCached x.hives) (ok_injective e) c7

  -- The part of `get_normal_key` for a hive that is found.
  module _ (m : RegistryManager) (c : AllCached m.hives) (k : FilePath) (h : Hive)
      (d : Cached h.file h.root_key) where
    asked_AllCached :
        (path : FilePath) (reg_key : RegistryKey) (r : Option RegistryKey)
        → let found = has_sub_key h.file path h.root_key in
          let answer : Result (Option RegistryKey) × RegistryManager = elim path [
            | [] ↦ (ok (some reg_key), m)
            | _ ∷ _ ↦ (
              found.0 >>= λ b. ok (if b then some reg_key else none),
              record m { hives = put_hive k (record h { root_key = found.1 }) m.hives },
            )
          ] in
          answer.0 ≡ ok r → AllCached answer.1.hives
    asked_AllCached [] reg_key r e = c
    asked_AllCached (part ∷ path) reg_key r e =
        let (b, eb, _) =
          bind_ok (has_sub_key h.file (part ∷ path) h.root_key).0
            (λ b. ok (if b then some reg_key else none)) r e in
        AllCached-put_hive k _ m.hives c (
          Agrees-Cached h.file (place_of h.root_key) _ _ b
            (has_sub_key-Agrees h.file (part ∷ path) h.root_key d) eb)

    read_AllCached :
        (key : RegistryKey) (name : Text) (r : Option HiveValue)
        → let answer = value_at h.file key.path (to_lower name) h.root_key in
          answer.0 ≡ ok r → AllCached (put_hive k (record h { root_key = answer.1 }) m.hives)
    read_AllCached key name r e = AllCached-put_hive k _ m.hives c (
        Agrees-Cached h.file (place_of h.root_key) _ _ r
          (value_at-Agrees h.file key.path (to_lower name) h.root_key d) e)

  get_normal_key-AllCached :
      (normal_key : FilePath) (m : RegistryManager) (r : Option RegistryKey)
      → AllCached m.hives
      → (get_normal_key paths normal_key m).0 ≡ ok r
      → AllCached (get_normal_key paths normal_key m).1.hives
  unfolding get_normal_key
  get_normal_key-AllCached normal_key m r c e = elim (Option-cases (find_hive normal_key m.hives)) [
    | inl f ↦ rw (get_normal_key, f) c
    | inr ((k, h), f) ↦
        let e' = rw (get_normal_key, f) at e in
        rw (get_normal_key, f)
          (asked_AllCached m c k h
            (AllCached-hive_of k h m.hives c (hive_of-find_hive normal_key k h m.hives f))
            (paths.lexically_relative normal_key k) _ r e')
  ]

  get_key-AllCached :
      (key : FilePath) (m : RegistryManager) (r : Option RegistryKey)
      → AllCached m.hives
      → (get_key paths key m).0 ≡ ok r
      → AllCached (get_key paths key m).1.hives
  unfolding get_key
  get_key-AllCached key m r c e =
      elim (Bool-cases (is_subpath (normalize_path paths m key) machine_root)) [
        | inl f ↦ rw (get_key, f) c
        | inr f ↦
            let e' = rw (get_key, f) at e in
            rw (get_key, f) (get_normal_key-AllCached (normalize_path paths m key) m r c e')
      ]

  get_registry_value-AllCached :
      (key : RegistryKey) (name : Text) (m : RegistryManager) (r : Option HiveValue)
      → AllCached m.hives
      → (get_registry_value paths key name m).0 ≡ ok r
      → AllCached (get_registry_value paths key name m).1.hives
  unfolding get_registry_value
  get_registry_value-AllCached key name m r c e = elim (Option-cases (hive_of key.hive m.hives)) [
    | inl f ↦ rw (get_registry_value, f) c
    | inr (h, f) ↦
        let e' = rw (get_registry_value, f) at e in
        rw (get_registry_value, f)
          (read_AllCached m c key.hive h (AllCached-hive_of key.hive h m.hives c f) key name r e')
  ]

-- A registry that was set up, and was asked for keys and values without an exception since then.
pub data Session (paths : PathFunctions) (files : FilePath → Option Bytes)
    : RegistryManager → Type 0 where
  started :
      (hive_path : FilePath) {m : RegistryManager}
      → setup_registry paths files hive_path ≡ ok m
      → Session paths files m
  asked_key :
      (key : FilePath) {m m' : RegistryManager} {r : Option RegistryKey}
      → Session paths files m
      → get_key paths key m ≡ (ok r, m')
      → Session paths files m'
  asked_value :
      (key : RegistryKey) (name : Text) {m m' : RegistryManager} {r : Option HiveValue}
      → Session paths files m
      → get_registry_value paths key name m ≡ (ok r, m')
      → Session paths files m'

-- Through a session each hive agrees with its file: what it has read is what the file lists.
pub Session-AllCached :
    (paths : PathFunctions) (files : FilePath → Option Bytes) (m : RegistryManager)
    → Session paths files m
    → AllCached m.hives
Session-AllCached paths files _ (started hive_path {m} e) =
    setup_registry-AllCached paths files hive_path m e
Session-AllCached paths files _ (asked_key key {m} {m'} {r} s e) =
    subst (λ (x : RegistryManager). AllCached x.hives)
      (ap (λ (x : Result (Option RegistryKey) × RegistryManager). x.1) e)
      (get_key-AllCached paths key m r (Session-AllCached paths files m s)
        (ap (λ (x : Result (Option RegistryKey) × RegistryManager). x.0) e))
Session-AllCached paths files _ (asked_value key name {m} {m'} {r} s e) =
    subst (λ (x : RegistryManager). AllCached x.hives)
      (ap (λ (x : Result (Option HiveValue) × RegistryManager). x.1) e)
      (get_registry_value-AllCached paths key name m r (Session-AllCached paths files m s)
        (ap (λ (x : Result (Option HiveValue) × RegistryManager). x.0) e))
