-- ===== src/Modules/Headers.antt =====
-- src/common/platform/win_pefile.hpp: the headers of an image, with the fields that the mapping reads.
use emulator_momo.Common.{ℕ, ◌+◌, ◌%◌, Bool, u32_mod, take, if◌then◌else◌, add64, Result, ok, ◌>>=◌}
use emulator_momo.Serialization.Buffer.{Bytes, field_at}
use emulator_momo.Modules.Accessor.{get_object}

-- `PEDirectory_t2`
pub record Directory : Type 0 where
  pub virtual_address : ℕ
  pub size : ℕ

-- `PENTHeaders_t<std::uint64_t>`: its file header and its optional header
pub record NtHeaders : Type 0 where
  pub machine : ℕ
  pub number_of_sections : ℕ
  pub size_of_optional_header : ℕ
  pub characteristics : ℕ
  pub address_of_entry_point : ℕ
  pub image_base : ℕ
  pub size_of_image : ℕ
  pub size_of_headers : ℕ
  pub dll_characteristics : ℕ
  pub export_directory : Directory
  pub relocation_directory : Directory

-- `IMAGE_SECTION_HEADER`
pub record SectionHeader : Type 0 where
  pub name : Bytes
  pub virtual_size : ℕ
  pub virtual_address : ℕ
  pub size_of_raw_data : ℕ
  pub pointer_to_raw_data : ℕ
  pub characteristics : ℕ

-- `IMAGE_EXPORT_DIRECTORY`
pub record ExportDirectory : Type 0 where
  pub base : ℕ
  pub number_of_names : ℕ
  pub address_of_functions : ℕ
  pub address_of_names : ℕ
  pub address_of_name_ordinals : ℕ

-- The two fields of `IMAGE_BASE_RELOCATION`
pub record BaseRelocation : Type 0 where
  pub virtual_address : ℕ
  pub size_of_block : ℕ

abbrev pub amd64 : ℕ
amd64 = 0x8664

abbrev pub image_file_dll : ℕ
image_file_dll = 0x2000

abbrev pub image_dllcharacteristics_dynamic_base : ℕ
image_dllcharacteristics_dynamic_base = 0x40

abbrev pub image_scn_mem_execute : ℕ
image_scn_mem_execute = 0x20000000

abbrev pub image_scn_mem_read : ℕ
image_scn_mem_read = 0x40000000

abbrev pub image_scn_mem_write : ℕ
image_scn_mem_write = 0x80000000

-- `dos_header.e_lfanew`, in a header of 64 bytes
unfoldable pub get_nt_headers_offset : Bytes → Result ℕ
unfolding get_object field_at
get_nt_headers_offset buffer = get_object 64 0 0 buffer >>= λ o. ok (field_at 60 4 o)

abbrev directory_at : ℕ → Bytes → Directory
directory_at offset o = record {
  virtual_address = field_at offset 4 o;
  size = field_at (offset + 4) 4 o;
}

-- The optional header starts at 24; its directories start at 136 and have 8 bytes each.
unfoldable pub get_nt_headers : ℕ → Bytes → Result NtHeaders
unfolding get_object field_at
get_nt_headers offset buffer = get_object 264 offset 0 buffer >>= λ o. ok (record {
  machine = field_at 4 2 o;
  number_of_sections = field_at 6 2 o;
  size_of_optional_header = field_at 20 2 o;
  characteristics = field_at 22 2 o;
  address_of_entry_point = field_at 40 4 o;
  image_base = field_at 48 8 o;
  size_of_image = field_at 80 4 o;
  size_of_headers = field_at 84 4 o;
  dll_characteristics = field_at 94 2 o;
  export_directory = directory_at 136 o;
  relocation_directory = directory_at 176 o;
})

-- `get_first_section_offset`
unfoldable pub get_first_section_offset : NtHeaders → ℕ → ℕ
get_first_section_offset h nt_headers_offset =
    add64 nt_headers_offset (24 + h.size_of_optional_header)

unfoldable pub get_section : ℕ → ℕ → Bytes → Result SectionHeader
unfolding get_object field_at take
get_section offset index buffer = get_object 40 offset index buffer >>= λ o. ok (record {
  name = take 8 o;
  virtual_size = field_at 8 4 o;
  virtual_address = field_at 12 4 o;
  size_of_raw_data = field_at 16 4 o;
  pointer_to_raw_data = field_at 20 4 o;
  characteristics = field_at 36 4 o;
})

unfoldable pub get_export_directory : ℕ → Bytes → Result ExportDirectory
unfolding get_object field_at
get_export_directory offset buffer = get_object 40 offset 0 buffer >>= λ o. ok (record {
  base = field_at 16 4 o;
  number_of_names = field_at 24 4 o;
  address_of_functions = field_at 28 4 o;
  address_of_names = field_at 32 4 o;
  address_of_name_ordinals = field_at 36 4 o;
})

-- The size of `IMAGE_BASE_RELOCATION`: the declaration of this header ends with a `TypeOffset[1]`,
-- which the one of the Windows SDK has not.
unfoldable pub sizeof_base_relocation : Bool → ℕ
sizeof_base_relocation os_windows = if os_windows then 8 else 12

-- The size is a `DWORD`.
unfoldable pub get_relocation : Bool → ℕ → Bytes → Result BaseRelocation
unfolding get_object field_at sizeof_base_relocation
get_relocation os_windows offset buffer =
    get_object (sizeof_base_relocation os_windows) offset 0 buffer >>= λ o.
    ok (record { virtual_address = field_at 0 4 o; size_of_block = field_at 4 4 o % u32_mod })
