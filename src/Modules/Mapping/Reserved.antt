-- ===== src/Modules/Mapping/Reserved.antt =====
-- src/windows-emulator/module/module_mapping.cpp: what a mapping reserves.
use emulator_momo.Common.{
  ℕ, zero, suc, ◌+◌, refl, inl, inr, Bool, ◌∙◌, Result, ok, thrown, Bool-cases, ltb, min, max,
  add64, Result-cases, Text,
}
use emulator_momo.Serialization.Buffer.{Bytes}
use emulator_momo.Memory.Address.{page_align_up}
use emulator_momo.Memory.Region.{Permission}
use emulator_momo.Memory.Reserved.{ReservedRegionMap}
use emulator_momo.Memory.Reserved.Valid.{IsValid}
use emulator_momo.Memory.Manager.{protect_memory}
use emulator_momo.Memory.Manager.Reservations.{SameReserved, protect_memory-SameReserved}
use emulator_momo.Modules.Accessor.{get_pointer_for_range}
use emulator_momo.Modules.Headers.{NtHeaders, SectionHeader, get_section, get_first_section_offset}
use emulator_momo.Modules.Exports.{collect_exports}
use emulator_momo.Modules.Mapping.{
  Backend, Emulator, section_permissions, protect_guest, write_section, map_section, map_sections,
  write_guest, read_guest, relocate, fill_image,
}

SameReserved-trans :
    (m m' m'' : ReservedRegionMap) → SameReserved m m' → SameReserved m' m'' → SameReserved m m''
SameReserved-trans m m' m'' a b = record {
  valid = b.valid;
  same = λ x. b.same x ∙ a.same x;
  entries = λ k r h.
      let (r', h', e') = a.entries k r h in
      let (r'', h'', e'') = b.entries k r' h' in (r'', h'', e'' ∙ e');
}

module _ (backend : Backend) where
  -- A step leaves the reservations, whether it ends normally or not.
  abbrev pub Keeps : {A : Type 0} → Emulator backend → Result A × Emulator backend → Type 0
  Keeps s a = SameReserved s.regions a.1.regions

  still : (s : Emulator backend) → IsValid s.regions → SameReserved s.regions s.regions
  still s v = record { valid = v; same = λ x. refl; entries = λ b r h. (r, h, refl) }

  -- A first step, which was run from `s`, and the rest.
  after-Keeps :
      {A B : Type 0} (s : Emulator backend) (r : Result A) (left : Emulator backend)
      (f : A → Result B × Emulator backend)
      → SameReserved s.regions left.regions
      → ((a : A) → Keeps left (f a))
      → Keeps s
          (elim r as (λ _. Result B × Emulator backend) [ ok a ↦ f a | thrown ↦ (thrown, left) ])
  after-Keeps s (ok a) left f h k = SameReserved-trans _ _ _ h (k a)
  after-Keeps s thrown left f h k = h

  write_guest-Keeps :
      (address : ℕ) (bytes : Bytes) (s : Emulator backend)
      → IsValid s.regions
      → Keeps s (write_guest backend address bytes s)
  unfolding write_guest
  write_guest-Keeps address bytes s v =
      elim (Result-cases (backend.write_memory address bytes s.memory)) [
        | inl e ↦ rw (write_guest, e) (still s v)
        | inr (memory, e) ↦ rw (write_guest, e) (still s v)
      ]

  protect_guest-Keeps :
      (address size : ℕ) (p : Permission) (s : Emulator backend)
      → IsValid s.regions
      → Keeps s (protect_guest backend address size p s)
  unfolding protect_guest
  protect_guest-Keeps address size p s v =
      elim (Result-cases (protect_memory s.regions address size p)) [
        | inl e ↦ rw (protect_guest, e) (still s v)
        | inr (o, e) ↦
            rw (protect_guest, e) (protect_memory-SameReserved s.regions address size p o v e)
      ]

  write_section-Keeps :
      (target_ptr : ℕ) (section : SectionHeader) (buffer : Bytes) (s : Emulator backend)
      → IsValid s.regions
      → Keeps s (write_section backend target_ptr section buffer s)
  unfolding write_section
  write_section-Keeps target_ptr section buffer s v =
      elim (Bool-cases (ltb 0 section.size_of_raw_data)) [
        | inr e ↦ rw (write_section, e) (still s v)
        | inl e ↦
            rw (write_section, e)
              (after-Keeps s
                (get_pointer_for_range section.pointer_to_raw_data
                  (min section.size_of_raw_data section.virtual_size) buffer)
                s _ (still s v) (λ source. write_guest-Keeps target_ptr source s v))
      ]

  map_section-Keeps :
      (image_base : ℕ) (section : SectionHeader) (buffer : Bytes) (s : Emulator backend)
      → IsValid s.regions
      → Keeps s (map_section backend image_base section buffer s)
  unfolding map_section
  map_section-Keeps image_base section buffer s v =
      let target_ptr = add64 image_base section.virtual_address in
      let a = write_section backend target_ptr section buffer s in
      let h = write_section-Keeps target_ptr section buffer s v in
      after-Keeps s a.0 a.1 _ h (λ _.
        let size = page_align_up (max section.size_of_raw_data section.virtual_size) in
        let p = section_permissions section.characteristics in
        let b = protect_guest backend target_ptr size p a.1 in
        let k = protect_guest-Keeps target_ptr size p a.1 h.valid in
        after-Keeps a.1 b.0 b.1 _ k (λ _. still b.1 k.valid))

  map_sections-Keeps :
      (image_base offset rounds i : ℕ) (buffer : Bytes) (s : Emulator backend)
      → IsValid s.regions
      → Keeps s (map_sections backend image_base offset rounds i buffer s)
  unfolding map_sections
  map_sections-Keeps image_base offset zero i buffer s v = still s v
  map_sections-Keeps image_base offset (suc rounds) i buffer s v =
      after-Keeps s (get_section offset i buffer) s _ (still s v) (λ section.
        let a = map_section backend image_base section buffer s in
        let h = map_section-Keeps image_base section buffer s v in
        after-Keeps s a.0 a.1 _ h (λ mapped.
          let b = map_sections backend image_base offset rounds (i + 1) buffer a.1 in
          let k = map_sections-Keeps image_base offset rounds (i + 1) buffer a.1 h.valid in
          after-Keeps a.1 b.0 b.1 _ k (λ rest. still b.1 k.valid)))

  -- What follows the allocation reserves and frees nothing.
  pub fill_image-Keeps :
      (os_windows : Bool) (name path : Text) (h : NtHeaders) (nt_headers_offset : ℕ)
      (buffer : Bytes) (size base : ℕ) (s : Emulator backend)
      → IsValid s.regions
      → Keeps s (fill_image backend os_windows name path h nt_headers_offset buffer size base s)
  unfolding fill_image read_guest
  fill_image-Keeps os_windows name path h nt_headers_offset buffer size base s v =
      after-Keeps s (get_pointer_for_range 0 h.size_of_headers buffer) s _ (still s v) (λ header.
        let a = write_guest backend base header s in
        let k = write_guest-Keeps base header s v in
        let offset = get_first_section_offset h nt_headers_offset in
        after-Keeps s a.0 a.1 _ k (λ _.
          let b = map_sections backend base offset h.number_of_sections 0 buffer a.1 in
          let l = map_sections-Keeps base offset h.number_of_sections 0 buffer a.1 k.valid in
          after-Keeps a.1 b.0 b.1 _ l (λ sections.
            let t = b.1 in
            let w = l.valid in
            after-Keeps t (read_guest backend base size t).0 t _ (still t w) (λ mapped_memory.
              after-Keeps t (relocate backend os_windows base h mapped_memory) t _ (still t w)
                (λ relocated.
                  after-Keeps t (collect_exports base h.export_directory relocated) t _ (still t w)
                    (λ exports.
                      let c = write_guest backend base relocated t in
                      let m = write_guest-Keeps base relocated t w in
                      after-Keeps t c.0 c.1 _ m (λ _. still c.1 m.valid)))))))
