-- ===== src/Modules/Mapping/Places.antt =====
-- src/windows-emulator/module/module_mapping.cpp: where an image is mapped.
use emulator_momo.Common.{
  ◌+◌, ◌≤◌, ◌<◌, ok≢thrown, ℕ, ◌≡◌, refl, sym, ap, subst, inl, inr, ◌⊎◌, Bool, true, ◌==◌,
  Bool-cases, ==→eq, add64, Result, ok, thrown, ok_injective, Text,
}
use emulator_momo.Serialization.Buffer.{Bytes}
use emulator_momo.Memory.Address.{page_align_up}
use emulator_momo.Memory.Reserved.{ReservedRegionMap}
use emulator_momo.Memory.Reserved.Valid.{top, IsValid}
use emulator_momo.Memory.Manager.Reservations.{SameReserved}
use emulator_momo.Modules.Mapping.Reserved.{fill_image-Keeps}
use emulator_momo.Modules.Mapping.Allocated.{Reserves, reserves, allocate_image-AllocatedAt}
use emulator_momo.Modules.{MappedModule}
use emulator_momo.Modules.Accessor.{get_pointer_for_range}
use emulator_momo.Modules.Headers.{
  NtHeaders, amd64, get_nt_headers_offset, get_nt_headers, get_first_section_offset,
}
use emulator_momo.Modules.Exports.{collect_exports}
use emulator_momo.Modules.Mapping.{
  Backend, Emulator, is_relocatable, allocate_image, write_guest, read_guest, relocate,
  map_sections, fill_image, map_module_from_data,
}

-- A first step and the rest, of which the whole is a value.
ok_step :
    {A B S : Type 0} (r : Result A) (left : S) (f : A → Result B × S) (b : B) (t : S)
    → (elim r as (λ _. Result B × S) [ ok a ↦ f a | thrown ↦ (thrown, left) ]) ≡ (ok b, t)
    → (a : A) × (r ≡ ok a) × (f a ≡ (ok b, t))
ok_step (ok a) left f b t e = (a, refl, e)
ok_step {A} {B} {S} thrown left f b t e =
    absurd (ok≢thrown (sym (ap (λ (x : Result B × S). x.0) e)))

module _ (backend : Backend) where
  -- The module that is returned.
  fill_image_fields :
      (os_windows : Bool) (name path : Text) (h : NtHeaders) (nt_headers_offset : ℕ)
      (buffer : Bytes) (size base : ℕ) (s : Emulator backend) (b : MappedModule)
      (t : Emulator backend)
      → fill_image backend os_windows name path h nt_headers_offset buffer size base s ≡ (ok b, t)
      → (b.path ≡ path)
        × (b.image_base ≡ base)
        × (b.size_of_image ≡ size)
        × (b.entry_point ≡ add64 base h.address_of_entry_point)
  unfolding fill_image
  fill_image_fields os_windows name path h nt_headers_offset buffer size base s b t e =
      let (header, _, e1) = ok_step (get_pointer_for_range 0 h.size_of_headers buffer) s _ b t e in
      let s1 = (write_guest backend base header s).1 in
      let (_, _, e2) = ok_step (write_guest backend base header s).0 s1 _ b t e1 in
      let offset = get_first_section_offset h nt_headers_offset in
      let a2 = map_sections backend base offset h.number_of_sections 0 buffer s1 in
      let (sections, _, e3) = ok_step a2.0 a2.1 _ b t e2 in
      let a3 = read_guest backend base size a2.1 in
      let (mapped_memory, _, e4) = ok_step a3.0 a3.1 _ b t e3 in
      let (relocated, _, e5) =
        ok_step (relocate backend os_windows base h mapped_memory) a3.1 _ b t e4 in
      let (exports, _, e6) =
        ok_step (collect_exports base h.export_directory relocated) a3.1 _ b t e5 in
      let a4 = write_guest backend base relocated a3.1 in
      let (_, _, e7) = ok_step a4.0 a4.1 _ b t e6 in
      let same = ok_injective (ap (λ (x : Result MappedModule × Emulator backend). x.0) e7) in
      (
        sym (ap (λ (x : MappedModule). x.path) same),
        sym (ap (λ (x : MappedModule). x.image_base) same),
        sym (ap (λ (x : MappedModule). x.size_of_image) same),
        sym (ap (λ (x : MappedModule). x.entry_point) same),
      )

  -- What is known of the module `b` that is mapped, from the regions `m` to `m'`.
  pub record Mapped (m m' : ReservedRegionMap) (file : Text) (h : NtHeaders) (b : MappedModule)
      : Type 0 where
    pub machine : h.machine ≡ amd64
    pub path : b.path ≡ file
    pub size : b.size_of_image ≡ page_align_up h.size_of_image
    pub entry_point : b.entry_point ≡ add64 b.image_base h.address_of_entry_point
    pub place : (b.image_base ≡ h.image_base) ⊎ (is_relocatable h ≡ true)
    pub reserves : Reserves m m' b.image_base b.size_of_image

  as_Mapped :
      (m m' : ReservedRegionMap) (path : Text) (h : NtHeaders) (b : MappedModule) (base : ℕ)
      → h.machine ≡ amd64
      → b.path ≡ path
      → b.image_base ≡ base
      → b.size_of_image ≡ page_align_up h.size_of_image
      → b.entry_point ≡ add64 base h.address_of_entry_point
      → (base ≡ h.image_base) ⊎ (is_relocatable h ≡ true)
      → Reserves m m' base (page_align_up h.size_of_image)
      → Mapped m m' path h b
  as_Mapped m m' path h b base machine p at_base size entry place taken = record {
    machine = machine;
    path = p;
    size = size;
    entry_point = subst (λ k. b.entry_point ≡ add64 k h.address_of_entry_point) (sym at_base) entry;
    place = subst (λ k. (k ≡ h.image_base) ⊎ (is_relocatable h ≡ true)) (sym at_base) place;
    reserves =
        subst (λ k. Reserves m m' k b.size_of_image) (sym at_base)
          (subst (Reserves m m' base) (sym size) taken);
  }

  -- A module that is mapped, with the regions valid before, and where its range is not empty and does not pass the
  -- top of the address space, is for the machine, has the entry point of its headers, and their size rounded up to
  -- pages. Its range was free and is reserved afterwards, and nothing else is reserved or freed; it lies
  -- at the preferred base of the image, or elsewhere, if the image can be relocated.
  pub map_module_from_data-Mapped :
      (os_windows : Bool) (buffer : Bytes) (name path : Text) (s t : Emulator backend)
      (b : MappedModule)
      → map_module_from_data backend os_windows buffer name path s ≡ (ok b, t)
      → IsValid s.regions
      → 0 < b.size_of_image
      → b.image_base + b.size_of_image ≤ top
      → (nt_headers_offset : ℕ) × (h : NtHeaders) × (get_nt_headers_offset buffer
          ≡ ok nt_headers_offset)
        × (get_nt_headers nt_headers_offset buffer ≡ ok h)
        × Mapped s.regions t.regions path h b
  unfolding map_module_from_data
  map_module_from_data-Mapped os_windows buffer name path s t b e v some_size fits =
      let (offset, eo, e1) = ok_step (get_nt_headers_offset buffer) s _ b t e in
      let (h, eh, e2) = ok_step (get_nt_headers offset buffer) s _ b t e1 in
      elim (Bool-cases (h.machine == amd64)) [
        | inr m ↦ let e3 = rw m at e2 in absurd (cc e3)
        | inl m ↦
            let e3 = rw m at e2 in
            let size = page_align_up h.size_of_image in
            let a = allocate_image backend h size s in
            let (base, eb, e4) = ok_step a.0 a.1 _ b t e3 in
            let f = fill_image_fields os_windows name path h offset buffer size base a.1 b t e4 in
            let place = allocate_image-AllocatedAt backend h size base s eb in
            let keeps : IsValid a.1.regions → SameReserved a.1.regions t.regions = λ w.
              subst
                (λ (x : Result MappedModule × Emulator backend).
                  SameReserved a.1.regions x.1.regions)
                e4
                (fill_image-Keeps backend os_windows name path h offset buffer size base a.1 w) in
            let taken : Reserves s.regions t.regions base size =
              reserves s.regions a.1.regions t.regions base size v
                (subst (λ k. k + size ≤ top) f.1 (subst (λ k. b.image_base + k ≤ top) f.2 fits))
                (subst (λ k. 0 < k) f.2 some_size) place.0 keeps in
            (
              offset,
              h,
              eo,
              eh,
              as_Mapped s.regions t.regions path h b base (==→eq h.machine amd64 m) f.0 f.1 f.2 f.3
                  place.1 taken,
            )
      ]
