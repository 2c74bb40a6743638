-- ===== src/Syscalls/Query.antt =====
-- src/windows-emulator/syscalls.cpp: `NtQueryVirtualMemory`.
use emulator_momo.Common.{
  ℕ, Bool, true, false, not, ◌||◌, Option, none, some, Dict, ◌==◌, if◌then◌else◌,
}
use emulator_momo.Memory.Protection.{map_emulator_to_nt_protection}
use emulator_momo.Memory.Reserved.{ReservedRegionMap}
use emulator_momo.Memory.Query.{RegionInfo, get_region_info}
use emulator_momo.Modules.{MappedModule, find_by_address}
use emulator_momo.Objects.{status_success}
use emulator_momo.Syscalls.{status_not_supported}
use emulator_momo.Syscalls.Memory.{
  current_process, mem_commit, mem_reserve, mem_free, mem_private, status_invalid_address,
  status_buffer_overflow,
}

-- The members that are set of `EMU_MEMORY_BASIC_INFORMATION64`, `MEMORY_IMAGE_INFORMATION64` and
-- `MEMORY_REGION_INFORMATION64`.
pub record BasicInformation : Type 0 where
  pub base_address : ℕ
  pub allocation_base : ℕ
  pub allocation_protect : ℕ
  pub partition_id : ℕ
  pub region_size : ℕ
  pub state : ℕ
  pub protect : ℕ
  pub kind : ℕ

pub record ImageInformation : Type 0 where
  pub image_base : ℕ
  pub size_of_image : ℕ
  pub image_flags : ℕ

pub record RegionInformation : Type 0 where
  pub allocation_base : ℕ
  pub allocation_protect : ℕ
  pub partition_id : ℕ
  pub region_size : ℕ
  pub reserved : ℕ

pub data Information : Type 0 where
  basic : BasicInformation → Information
  image : ImageInformation → Information
  region : RegionInformation → Information

-- `none` is no write; `stops` tells whether the emulator is told to stop.
pub record QueryReply : Type 0 where
  pub status : ℕ
  pub return_length : Option ℕ
  pub information : Option Information
  pub stops : Bool

abbrev pub basic_class : ℕ
basic_class = 0

abbrev pub region_class : ℕ
region_class = 3

abbrev pub working_set_ex_class : ℕ
working_set_ex_class = 4

abbrev pub image_class : ℕ
image_class = 6

abbrev pub image_extension_class : ℕ
image_extension_class = 14

-- `sizeof` of the three structures
abbrev pub basic_size : ℕ
basic_size = 48

abbrev pub image_size : ℕ
image_size = 24

abbrev pub region_size_of : ℕ
region_size_of = 48

abbrev pub state_of : RegionInfo → ℕ
state_of i = if i.is_committed then mem_commit else if i.is_reserved then mem_reserve else mem_free

abbrev pub basic_information : RegionInfo → BasicInformation
basic_information i = record {
  base_address = i.start;
  allocation_base = i.allocation_base;
  allocation_protect = 0;
  partition_id = 0;
  region_size = i.length;
  state = state_of i;
  protect = map_emulator_to_nt_protection i.permissions;
  kind = mem_private;
}

abbrev pub region_information : RegionInfo → RegionInformation
region_information i = record {
  allocation_base = i.allocation_base;
  allocation_protect = 0;
  partition_id = 0;
  region_size = i.allocation_length;
  reserved = 0x10;
}

-- `has_return_length` tells whether the guest gives the last pointer.
module _ (m : ReservedRegionMap) (modules : Dict MappedModule) (base_address length : ℕ)
    (has_return_length : Bool) where
  abbrev answer : ℕ → ℕ → Option Information → QueryReply
  answer status size information = record {
    status = status;
    return_length = if has_return_length then some size else none;
    information = information;
    stops = false;
  }

  unfoldable pub query_basic : QueryReply
  query_basic =
      if not (length == basic_size)
      then answer status_buffer_overflow basic_size none
      else answer status_success basic_size
          (some (basic (basic_information (get_region_info m base_address))))

  unfoldable pub query_image : QueryReply
  query_image =
      let found : QueryReply = elim (find_by_address modules base_address) [
        | none ↦ answer status_invalid_address image_size none
        | some e ↦ answer status_success image_size (
            some (
              image (record {
                image_base = e.image_base;
                size_of_image = e.size_of_image;
                image_flags = 0;
              })))
      ] in
      if not (length == image_size) then answer status_buffer_overflow image_size none else found

  unfoldable pub query_region : QueryReply
  query_region =
      let info = get_region_info m base_address in
      if not (length == region_size_of)
      then answer status_buffer_overflow region_size_of none
      else if not info.is_reserved
      then answer status_invalid_address region_size_of none
      else answer status_success region_size_of (some (region (region_information info)))

abbrev unsupported : Bool → QueryReply
unsupported stops = record {
  status = status_not_supported;
  return_length = none;
  information = none;
  stops = stops;
}

unfoldable pub handle_nt_query_virtual_memory :
    ReservedRegionMap → Dict MappedModule → ℕ → ℕ → ℕ → ℕ → Bool → QueryReply
unfolding query_basic query_image query_region
handle_nt_query_virtual_memory m modules process_handle base_address info_class length
      has_return_length =
    if not (process_handle == current_process)
    then unsupported false
    else if info_class == working_set_ex_class || info_class == image_extension_class
    then unsupported false
    else if info_class == basic_class
    then query_basic m modules base_address length has_return_length
    else if info_class == image_class
    then query_image m modules base_address length has_return_length
    else if info_class == region_class
    then query_region m modules base_address length has_return_length
    else unsupported true
