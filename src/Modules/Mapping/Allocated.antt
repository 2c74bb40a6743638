-- ===== src/Modules/Mapping/Allocated.antt =====
-- src/windows-emulator/module/module_mapping.cpp: the allocation of an image.
use mathlib.Core.Bool.{false≢true}
use emulator_momo.Common.{
  ◌+◌, ◌≤◌, ◌<◌, ◌∙◌, if◌then◌else◌, ℕ, ◌≡◌, refl, sym, ap, subst, inl, inr, ◌⊎◌, true, false,
  Bool-cases, lookup, some, ok, ok_injective,
}
use emulator_momo.Memory.Protection.{read_only}
use emulator_momo.Memory.Query.{find_free_allocation_base}
use emulator_momo.Memory.Reserved.{ReservedRegion, ReservedRegionMap, overlaps_reserved_region}
use emulator_momo.Memory.Manager.{allocate_memory}
use emulator_momo.Memory.Reserved.Valid.{top, IsValid, is_reserved, in_range}
use emulator_momo.Memory.Manager.Allocate.{allocate_memory_cases, allocate_memory_entry}
use emulator_momo.Memory.Manager.Reservations.{SameReserved}
use emulator_momo.Modules.Headers.{NtHeaders}
use emulator_momo.Modules.Mapping.{
  Backend, Emulator, is_relocatable, allocate_guest, allocate_elsewhere, allocate_image,
}

-- An allocation at `base` that succeeds.
pub record AllocatedAt (m m' : ReservedRegionMap) (base size : ℕ) : Type 0 where
  pub succeeded : (allocate_memory m base size read_only false).value ≡ true
  pub regions : m' ≡ (allocate_memory m base size read_only false).regions

-- The range [base, base + size) was free in `m` and is reserved in `m'`, which is valid; nothing else is
-- reserved or freed.
pub record Reserves (m m' : ReservedRegionMap) (base size : ℕ) : Type 0 where
  pub valid : IsValid m'
  pub free : (x : ℕ) → in_range base (base + size) x ≡ true → is_reserved m x ≡ false
  pub reserved :
      (x : ℕ) → is_reserved m' x ≡ (if in_range base (base + size) x then true else is_reserved m x)
  pub entry : (r : ReservedRegion) × (lookup base m' ≡ some r) × (r.length ≡ size)

allocate_memory_taken :
    (m : ReservedRegionMap) (address size : ℕ)
    → (allocate_memory m address size read_only false).value ≡ false
    → (allocate_memory m address size read_only false).regions ≡ m
unfolding allocate_memory
allocate_memory_taken m address size e =
    elim (Bool-cases (overlaps_reserved_region m address size)) [
      | inl o ↦ rw (allocate_memory, o) refl
      | inr o ↦ let e' = rw (allocate_memory, o) at e in absurd (cc e')
    ]

-- The allocation of an image, and what follows it.
pub reserves :
    (m m' m'' : ReservedRegionMap) (base size : ℕ)
    → IsValid m
    → base + size ≤ top
    → 0 < size
    → AllocatedAt m m' base size
    → (IsValid m' → SameReserved m' m'')
    → Reserves m m'' base size
reserves m m' m'' base size v fits some_size at keeps =
    elim (allocate_memory_cases m base size read_only false v fits some_size) [
      | inl r ↦ absurd (false≢true (sym r.failed ∙ at.succeeded))
      | inr o ↦
          let k = keeps (subst IsValid (sym at.regions) o.valid) in
          let (r, e, len) =
            allocate_memory_entry m base size read_only v fits some_size at.succeeded in
          let (r', e', same) = k.entries base r (ap (lookup base) at.regions ∙ e) in
          record {
            valid = k.valid;
            free = o.free;
            reserved = λ x. k.same x ∙ ap (λ n. is_reserved n x) at.regions ∙ o.reserved x;
            entry = (r', e', same ∙ len);
          }
    ]

module _ (backend : Backend) where
  allocate_elsewhere-AllocatedAt :
      (h : NtHeaders) (size base : ℕ) (s : Emulator backend)
      → (allocate_elsewhere backend h size s).0 ≡ ok base
      → AllocatedAt s.regions (allocate_elsewhere backend h size s).1.regions base size
        × (is_relocatable h ≡ true)
  unfolding allocate_elsewhere allocate_guest
  allocate_elsewhere-AllocatedAt h size base s e =
      let found = find_free_allocation_base s.regions size 0 in
      elim (Bool-cases (is_relocatable h)) [
        | inr r ↦ let e' = rw (allocate_elsewhere, r) at e in absurd (cc e')
        | inl r ↦ elim (Bool-cases (allocate_memory s.regions found size read_only false).value) [
          | inl a ↦
              let e' = rw (allocate_elsewhere, r, allocate_guest, a) at e in
              let same : found ≡ base = ok_injective e' in
              (
                subst
                    (λ k.
                      AllocatedAt s.regions (allocate_elsewhere backend h size s).1.regions k size)
                    same
                    (record {
                      succeeded = a;
                      regions = rw (allocate_elsewhere, r, allocate_guest, a) refl;
                    }),
                r,
              )
          | inr a ↦ let e' = rw (allocate_elsewhere, r, allocate_guest, a) at e in absurd (cc e')
        ]
      ]

  -- The range that is chosen is free, and another one than the preferred is chosen only for an image
  -- that can be relocated.
  pub allocate_image-AllocatedAt :
      (h : NtHeaders) (size base : ℕ) (s : Emulator backend)
      → (allocate_image backend h size s).0 ≡ ok base
      → AllocatedAt s.regions (allocate_image backend h size s).1.regions base size
        × ((base ≡ h.image_base) ⊎ (is_relocatable h ≡ true))
  unfolding allocate_image allocate_guest
  allocate_image-AllocatedAt h size base s e =
      elim (Bool-cases (allocate_memory s.regions h.image_base size read_only false).value) [
        | inl a ↦
            let e' = rw (allocate_image, allocate_guest, a) at e in
            let same : h.image_base ≡ base = ok_injective e' in
            (
              subst (λ k. AllocatedAt s.regions (allocate_image backend h size s).1.regions k size)
                  same
                  (record { succeeded = a; regions = rw (allocate_image, allocate_guest, a) refl }),
              inl (sym same),
            )
        | inr a ↦
            let e' = rw (allocate_image, allocate_guest, a) at e in
            let s' = (allocate_guest backend h.image_base size read_only s).1 in
            let after = (allocate_elsewhere backend h size s').1.regions in
            let elsewhere = allocate_elsewhere-AllocatedAt h size base s' e' in
            let same = allocate_memory_taken s.regions h.image_base size a in
            (
              rw (allocate_image, allocate_guest, a)
                  (subst (λ m. AllocatedAt m after base size) same elsewhere.0),
              inr elsewhere.1,
            )
      ]
