-- ===== src/Modules/Mapping.antt =====
-- src/windows-emulator/module/module_mapping.cpp: `map_module_from_data` on top of the memory manager. A
-- step takes the emulator and returns what it returns or throws, with the emulator that it leaves.
pub mod Reserved
pub mod Allocated
pub mod Places
pub mod Leaks
use emulator_momo.Common.{
  ℕ, zero, suc, ◌+◌, Bool, true, false, not, ◌&&◌, ◌||◌, Option, none, some, List, [], ◌∷◌, ◌++◌,
  Dict, length, ltb, ◌==◌, if◌then◌else◌, add64, min, max, Result, ok, thrown, Text,
}
use emulator_momo.Serialization.Buffer.{Bytes}
use emulator_momo.Memory.Address.{page_align_up}
use emulator_momo.Memory.Protection.{read_only, has_bit}
use emulator_momo.Memory.Query.{find_free_allocation_base}
use emulator_momo.Memory.Region.{Permission}
use emulator_momo.Memory.Reserved.{ReservedRegionMap, BackendCall, Outcome}
use emulator_momo.Memory.Manager.{allocate_memory, protect_memory, release_memory}
use emulator_momo.Modules.{ExportedSymbol, MappedSection, MappedModule}
use emulator_momo.Modules.Accessor.{get_pointer_for_range}
use emulator_momo.Modules.Exports.{collect_exports}
use emulator_momo.Modules.Headers.{
  NtHeaders, SectionHeader, amd64, image_file_dll, image_dllcharacteristics_dynamic_base,
  image_scn_mem_execute, image_scn_mem_read, image_scn_mem_write, get_nt_headers_offset,
  get_nt_headers, get_first_section_offset, get_section,
}
use emulator_momo.Modules.Relocations.{apply_relocations}

-- The memory of the guest behind the pure virtual functions of the emulator.
pub record Backend : Type 1 where
  pub Memory : Type 0
  pub perform : BackendCall → Memory → Memory
  pub write_memory : ℕ → Bytes → Memory → Result Memory
  pub read_memory : ℕ → ℕ → Memory → Result Bytes

-- `name` of a section, up to its first zero
unfoldable pub section_name : Bytes → Text
section_name [] = []
section_name (c ∷ cs) = if c == 0 then [] else c ∷ section_name cs

unfoldable pub section_permissions : ℕ → Permission
section_permissions characteristics =
    (if has_bit image_scn_mem_execute characteristics then 4 else 0)
    + (if has_bit image_scn_mem_read characteristics then 1 else 0)
    + (if has_bit image_scn_mem_write characteristics then 2 else 0)

unfoldable pub is_relocatable : NtHeaders → Bool
is_relocatable h =
    has_bit image_file_dll h.characteristics
    || has_bit image_dllcharacteristics_dynamic_base h.dll_characteristics

module _ (backend : Backend) where
  pub record Emulator : Type 0 where
    pub regions : ReservedRegionMap
    pub memory : backend.Memory

  abbrev pub Action : Type 0 → Type 0
  Action A = Emulator → Result A × Emulator

  infixl 5 ◌>>=◌ ◌>>◌
  abbrev pub ◌>>=◌ : {A B : Type 0} → Action A → (A → Action B) → Action B
  ◌>>=◌ m f s = let (r, s') = m s in elim r [ ok a ↦ f a s' | thrown ↦ (thrown, s') ]

  abbrev pub ◌>>◌ : {A B : Type 0} → Action A → Action B → Action B
  m >> k = m >>= λ _. k

  abbrev pub pure : {A : Type 0} → A → Action A
  pure a s = (ok a, s)

  abbrev pub lift : {A : Type 0} → Result A → Action A
  lift r s = (r, s)

  pub perform_all : List BackendCall → backend.Memory → backend.Memory
  perform_all [] memory = memory
  perform_all (c ∷ cs) memory = perform_all cs (backend.perform c memory)

  -- What an operation of the memory manager leaves.
  abbrev pub settle : {A : Type 0} → Outcome A → Emulator → Emulator
  settle o s = record { regions = o.regions; memory = perform_all o.calls s.memory }

  unfoldable pub allocate_guest : ℕ → ℕ → Permission → Action Bool
  allocate_guest address size permissions s =
      let o = allocate_memory s.regions address size permissions false in (ok o.value, settle o s)

  unfoldable pub protect_guest : ℕ → ℕ → Permission → Action (Unit {0})
  protect_guest address size permissions s =
      elim (protect_memory s.regions address size permissions) [
        | ok o ↦ (ok tt, settle o s)
        | thrown ↦ (thrown, s)
      ]

  unfoldable pub write_guest : ℕ → Bytes → Action (Unit {0})
  write_guest address bytes s = elim (backend.write_memory address bytes s.memory) [
    | ok memory ↦ (ok tt, record s { memory = memory })
    | thrown ↦ (thrown, s)
  ]

  unfoldable pub read_guest : ℕ → ℕ → Action Bytes
  read_guest address size s = (backend.read_memory address size s.memory, s)

  -- The part of the loop of `map_sections` that copies the data of a section.
  unfoldable pub write_section : ℕ → SectionHeader → Bytes → Action (Unit {0})
  unfolding write_guest
  write_section target_ptr section buffer =
      let size_of_data = min section.size_of_raw_data section.virtual_size in
      let copy =
        lift (get_pointer_for_range section.pointer_to_raw_data size_of_data buffer) >>= λ source.
        write_guest target_ptr source in
      if ltb 0 section.size_of_raw_data then copy else pure tt

  -- One round of the loop of `map_sections`
  unfoldable pub map_section : ℕ → SectionHeader → Bytes → Action MappedSection
  unfolding write_section protect_guest
  map_section image_base section buffer =
      let target_ptr = add64 image_base section.virtual_address in
      let permissions = section_permissions section.characteristics in
      let size_of_section = page_align_up (max section.size_of_raw_data section.virtual_size) in
      do
        write_section target_ptr section buffer
        protect_guest target_ptr size_of_section permissions
        pure (record {
          name = section_name section.name;
          start = target_ptr;
          length = size_of_section;
          permissions = permissions;
        })

  -- The loop of `map_sections`, from the index `i` on
  unfoldable pub map_sections : ℕ → ℕ → ℕ → ℕ → Bytes → Action (List MappedSection)
  unfolding map_section
  map_sections image_base offset zero i buffer = pure []
  map_sections image_base offset (suc rounds) i buffer = do
    section ← lift (get_section offset i buffer)
    mapped ← map_section image_base section buffer
    rest ← map_sections image_base offset rounds (i + 1) buffer
    pure (mapped ∷ rest)

  -- The second attempt, where the preferred range is taken.
  unfoldable pub allocate_elsewhere : NtHeaders → ℕ → Action ℕ
  unfolding allocate_guest
  allocate_elsewhere h size_of_image s =
      let image_base = find_free_allocation_base s.regions size_of_image 0 in
      let attempt : Result ℕ × Emulator =
        (allocate_guest image_base size_of_image read_only >>= λ allocated.
        if allocated then pure image_base else lift thrown)
          s in
      if is_relocatable h then attempt else (thrown, s)

  -- Where the image goes.
  unfoldable pub allocate_image : NtHeaders → ℕ → Action ℕ
  unfolding allocate_guest allocate_elsewhere
  allocate_image h size_of_image =
      allocate_guest h.image_base size_of_image read_only >>= λ allocated.
      if allocated then pure h.image_base else allocate_elsewhere h size_of_image

  -- `apply_relocations` on an image of `length buffer` bytes, with rounds enough.
  unfoldable pub relocate : Bool → ℕ → NtHeaders → Bytes → Result Bytes
  relocate os_windows image_base h buffer =
      elim (apply_relocations os_windows (suc (suc (length buffer))) image_base h.image_base
        h.relocation_directory buffer) [ none ↦ thrown | some r ↦ r ]

  -- What follows the allocation.
  unfoldable pub fill_image :
      Bool → Text → Text → NtHeaders → ℕ → Bytes → ℕ → ℕ → Action MappedModule
  unfolding map_sections write_guest read_guest relocate
  fill_image os_windows name path h nt_headers_offset buffer size_of_image image_base = do
    header ← lift (get_pointer_for_range 0 h.size_of_headers buffer)
    write_guest image_base header
    sections ←
        map_sections image_base (get_first_section_offset h nt_headers_offset) h.number_of_sections
          0 buffer
    mapped_memory ← read_guest image_base size_of_image
    relocated ← lift (relocate os_windows image_base h mapped_memory)
    exports ← lift (collect_exports image_base h.export_directory relocated)
    write_guest image_base relocated
    pure (record {
      name = name;
      path = path;
      image_base = image_base;
      size_of_image = size_of_image;
      entry_point = add64 image_base h.address_of_entry_point;
      exports = exports.0;
      address_names = exports.1;
      sections = sections;
    })

  -- `map_module_from_data`; `name` is the file name of the path.
  unfoldable pub map_module_from_data : Bool → Bytes → Text → Text → Action MappedModule
  unfolding allocate_image fill_image
  map_module_from_data os_windows buffer name path = do
    nt_headers_offset ← lift (get_nt_headers_offset buffer)
    h ← lift (get_nt_headers nt_headers_offset buffer)
    let size_of_image = page_align_up h.size_of_image
    let mapped =
        (allocate_image h size_of_image >>= λ image_base.
        fill_image os_windows name path h nt_headers_offset buffer size_of_image image_base)
    if h.machine == amd64 then mapped else lift thrown
