-- ===== src/Modules/Registered.antt =====
-- src/windows-emulator/module/module_manager.cpp: a module is mapped once, and is gone after `unmap`.
use emulator_momo.Common.{
  ℕ, ◌+◌, ◌≤◌, ◌≡◌, refl, sym, ap, ◌∙◌, subst, inl, inr, Bool, true, Option, none, some, [], ◌∷◌,
  Dict, lookup, put, erase, emplace, lookup-put, Bool-cases, Option-cases, Result, ok, Result-cases,
  ok_injective, ◌≢◌, Text, same_name, same_name_self, arith,
}
use emulator_momo.Serialization.Buffer.{Bytes}
use emulator_momo.Memory.Reserved.{ReservedRegion, Outcome}
use emulator_momo.Memory.Reserved.Valid.{IsValid}
use emulator_momo.Memory.Manager.Release.{Released, released_size, release_memory-Released}
use emulator_momo.Modules.{MappedModule}
use emulator_momo.Modules.Mapping.{Backend, settle}
use emulator_momo.Modules.Manager.{
  find_path, canonicalize_module_path, ModuleManager, map_module_from_file, map_canonical,
  map_module, unmap,
}

find_path-put :
    (path : Text) (k : ℕ) (m : MappedModule) (modules : Dict MappedModule)
    → find_path path modules ≡ none
    → m.path ≡ path
    → find_path path (put k m modules) ≡ some m
unfolding find_path put
find_path-put path k m [] e p = rw (p, same_name_self path) refl
find_path-put path k m ((j, n) ∷ modules) e p = elim (Bool-cases (same_name n.path path)) [
  | inl h ↦ let e' = rw h at e in absurd (cc e')
  | inr h ↦
      let e' = rw h at e in
      ground (arith, h, p, same_name_self path, find_path-put path k m modules e' p)
]

-- A module that stands in the table is found under its path, or one before it.
find_path-lookup :
    (path : Text) (k : ℕ) (m : MappedModule) (modules : Dict MappedModule)
    → lookup k modules ≡ some m
    → m.path ≡ path
    → find_path path modules ≢ none
unfolding find_path lookup
find_path-lookup path k m [] e p f = absurd (cc e)
find_path-lookup path k m ((j, n) ∷ modules) e p f =
    ground (arith, same_name_self path, find_path-lookup path k m modules)

module _ (backend : Backend) (os_windows : Bool) (canonical : Text → Result Text)
    (filename : Text → Text) (read_file : Text → Bytes) where
  abbrev mapped : Text → ModuleManager backend → Option MappedModule × ModuleManager backend
  mapped = map_canonical backend os_windows canonical filename read_file

  found_again :
      (path : Text) (t : ModuleManager backend) (m : MappedModule)
      → find_path path t.modules ≡ some m
      → mapped path t ≡ (some m, t)
  unfolding map_canonical
  found_again path t m e = rw (map_canonical, e) refl

  -- The new entry of the table.
  found_new :
      (path : Text) (modules : Dict MappedModule) (new m : MappedModule)
      → find_path path modules ≡ none
      → lookup new.image_base (emplace new.image_base new modules) ≡ some m
      → m.path ≡ path
      → find_path path (emplace new.image_base new modules) ≡ some m
  unfolding emplace
  found_new path modules new m f e p = elim (Option-cases (lookup new.image_base modules)) [
    | inl free ↦
        let e1 = rw (emplace, free, lookup-put new.image_base new.image_base new modules) at e in
        let same : new ≡ m = ground (arith, e1) in
        rw (emplace, free, same) (find_path-put path m.image_base m modules f p)
    | inr (old, there) ↦
        let e1 = rw (emplace, there) at e in
        absurd (find_path-lookup path new.image_base m modules e1 p f)
  ]

  -- A module that was returned under its path stands in the table.
  found_after :
      (path : Text) (s : ModuleManager backend) (m : MappedModule)
      → (mapped path s).0 ≡ some m
      → m.path ≡ path
      → find_path path (mapped path s).1.modules ≡ some m
  unfolding map_canonical
  found_after path s m e p = elim (Option-cases (find_path path s.modules)) [
    | inr (n, f) ↦ let e1 = rw (map_canonical, f) at e in rw (map_canonical, f) (f ∙ e1)
    | inl f ↦
        elim (Result-cases
          (map_module_from_file backend os_windows canonical filename read_file path
            s.emulator).0) [
              | inl t ↦ let e1 = rw (map_canonical, f, t) at e in absurd (cc e1)
              | inr (new, t) ↦
                  let e1 = rw (map_canonical, f, t) at e in
                  rw (map_canonical, f, t) (found_new path s.modules new m f e1 p)
            ]
  ]

map_module_at :
    (backend : Backend) (os_windows : Bool) (canonical : Text → Result Text)
    (filename : Text → Text) (read_file : Text → Bytes) (file path : Text)
    (s : ModuleManager backend)
    → canonicalize_module_path canonical file ≡ ok path
    → map_module backend os_windows canonical filename read_file file s ≡ (
      ok (map_canonical backend os_windows canonical filename read_file path s).0,
      (map_canonical backend os_windows canonical filename read_file path s).1,
    )
unfolding map_module
map_module_at backend os_windows canonical filename read_file file path s c =
    rw (map_module, c) refl

-- A module that was mapped under its canonical path is mapped once: under every path that has the same
-- canonical form it is found again, and nothing changes.
pub map_module-map_module :
    (backend : Backend) (os_windows : Bool) (canonical : Text → Result Text)
    (filename : Text → Text) (read_file : Text → Bytes) (file file' path : Text)
    (s : ModuleManager backend) (m : MappedModule)
    → canonicalize_module_path canonical file ≡ ok path
    → canonicalize_module_path canonical file' ≡ ok path
    → (map_module backend os_windows canonical filename read_file file s).0 ≡ ok (some m)
    → m.path ≡ path
    → map_module backend os_windows canonical filename read_file file'
        (map_module backend os_windows canonical filename read_file file s).1
      ≡ (ok (some m), (map_module backend os_windows canonical filename read_file file s).1)
map_module-map_module backend os_windows canonical filename read_file file file' path s m c c' e p =
    let first = map_module_at backend os_windows canonical filename read_file file path s c in
    let t = (map_canonical backend os_windows canonical filename read_file path s).1 in
    let returned =
      sym (ap (λ (x : Result (Option MappedModule) × ModuleManager backend). x.0) first) ∙ e in
    let there =
      found_after backend os_windows canonical filename read_file path s m (ok_injective returned)
        p in
    let again = found_again backend os_windows canonical filename read_file path t m there in
    let second : map_module backend os_windows canonical filename read_file file' t
        ≡ (ok (some m), t) =
      map_module_at backend os_windows canonical filename read_file file' path t c'
      ∙ ap (λ (x : Option MappedModule × ModuleManager backend). (ok x.0, x.1)) again in
    subst
      (λ x. map_module backend os_windows canonical filename read_file file' x ≡ (ok (some m), x))
      (sym (ap (λ (x : Result (Option MappedModule) × ModuleManager backend). x.1) first)) second

-- A module whose range is reserved at its base: `unmap` takes it out of the table and frees exactly its
-- range.
pub unmap-Released :
    (backend : Backend) (address : ℕ) (s : ModuleManager backend) (m : MappedModule)
    (r : ReservedRegion)
    → IsValid s.emulator.regions
    → lookup address s.modules ≡ some m
    → lookup m.image_base s.emulator.regions ≡ some r
    → released_size m.size_of_image r ≤ r.length
    → (o : Outcome Bool) × (unmap backend address s ≡ (
      some true,
      record { emulator = settle backend o s.emulator; modules = erase address s.modules },
    ))
      × Released s.emulator.regions m.image_base (m.image_base + released_size m.size_of_image r) o
unfolding unmap
unmap-Released backend address s m r v found reserved fits =
    let (o, e, p) =
      release_memory-Released s.emulator.regions m.image_base m.size_of_image r v reserved fits in
    (o, rw (unmap, found, e) refl, p)
