-- ===== src/Modules/Unmapped.antt =====
-- src/windows-emulator/module/module_mapping.cpp and module_manager.cpp: a module that is mapped and unmapped.
use emulator_momo.Common.{
  ℕ, ◌+◌, ◌≤◌, ◌<◌, ◌≡◌, ◌∙◌, refl, sym, subst, inl, inr, Bool, true, some, Dict, lookup, erase, ok,
  Bool-cases, Text, arith,
}
use emulator_momo.Serialization.Buffer.{Bytes}
use emulator_momo.Memory.Reserved.{ReservedRegion, ReservedRegionMap, Outcome}
use emulator_momo.Memory.Reserved.Valid.{top, IsValid, is_reserved, in_range}
use emulator_momo.Memory.Manager.Release.{Released, released_size}
use emulator_momo.Modules.{MappedModule}
use emulator_momo.Modules.Mapping.{Backend, Emulator, settle, map_module_from_data}
use emulator_momo.Modules.Mapping.Allocated.{Reserves}
use emulator_momo.Modules.Mapping.Places.{map_module_from_data-Mapped}
use emulator_momo.Modules.Manager.{ModuleManager, unmap}
use emulator_momo.Modules.Registered.{unmap-Released}

released_whole : (size : ℕ) (r : ReservedRegion) → 0 < size → released_size size r ≡ size
released_whole size r some_size = ground arith

-- What reserves a range and what frees it again.
Reserves-Released :
    (m m' : ReservedRegionMap) (base size : ℕ) (o : Outcome Bool)
    → Reserves m m' base size
    → Released m' base (base + size) o
    → (x : ℕ) → is_reserved o.regions x ≡ is_reserved m x
Reserves-Released m m' base size o taken given x =
    elim (Bool-cases (in_range base (base + size) x)) [
      | inl e ↦ given.reserved x ∙ rw e (sym (taken.free x e))
      | inr e ↦ given.reserved x ∙ rw e (taken.reserved x ∙ rw e refl)
    ]

-- What `unmap` leaves of the manager `s`.
pub record Unmapped (backend : Backend) (m : ReservedRegionMap) (address : ℕ)
    (s u : ModuleManager backend) : Type 0 where
  pub modules : u.modules ≡ erase address s.modules
  pub valid : IsValid u.emulator.regions
  pub same : (x : ℕ) → is_reserved u.emulator.regions x ≡ is_reserved m x

-- Where a module was mapped from valid regions, with a range that is not empty and does not pass the top of the address space, and
-- stands in the table, `unmap` succeeds, takes it out of the table, and leaves the regions valid, with exactly the
-- addresses reserved that were reserved before the module was mapped.
pub unmap-map_module_from_data :
    (backend : Backend) (os_windows : Bool) (buffer : Bytes) (name path : Text)
    (s t : Emulator backend) (b : MappedModule) (address : ℕ) (modules : Dict MappedModule)
    → map_module_from_data backend os_windows buffer name path s ≡ (ok b, t)
    → IsValid s.regions
    → 0 < b.size_of_image
    → b.image_base + b.size_of_image ≤ top
    → lookup address modules ≡ some b
    → (u : ModuleManager backend) × (unmap backend address
          (record { emulator = t; modules = modules })
        ≡ (some true, u))
      × Unmapped backend s.regions address (record { emulator = t; modules = modules }) u
unmap-map_module_from_data backend os_windows buffer name path s t b address modules e v some_size
      fits there =
    let (_, h, _, _, mapped) =
      map_module_from_data-Mapped backend os_windows buffer name path s t b e v some_size fits in
    let taken = mapped.reserves in
    let (r, stored, len) = taken.entry in
    let whole = released_whole b.size_of_image r some_size in
    let enough : released_size b.size_of_image r ≤ r.length = rw (whole, len) (omega arith) in
    let before : ModuleManager backend = record { emulator = t; modules = modules } in
    let (o, done, given) =
      unmap-Released backend address before b r taken.valid there stored enough in
    (
      record { emulator = settle backend o t; modules = erase address modules },
      done,
      record {
        modules = refl;
        valid = given.valid;
        same =
            Reserves-Released s.regions t.regions b.image_base b.size_of_image o taken
              (subst (λ k. Released t.regions b.image_base (b.image_base + k) o) whole given);
      },
    )
