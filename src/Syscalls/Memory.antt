-- ===== src/Syscalls/Memory.antt =====
-- src/windows-emulator/syscalls.cpp: the system calls on virtual memory. What a handler reads through
-- a pointer is an argument. What it writes there is part of its reply, where the value that was read
-- stands if nothing is written; the pointers of one call do not meet. A status that is `thrown` is an
-- exception that leaves the handler.
pub mod Protect
pub mod Allocate
pub mod Free
use emulator_momo.Common.{
  ℕ, ◌-◌, ◌*◌, ◌/◌, ◌%◌, Bool, false, not, ◌&&◌, ◌||◌, Option, none, some, List, [], ◌++◌, ◌==◌,
  if◌then◌else◌, add64, sub64, u32_mod, Result, ok, thrown,
}
use emulator_momo.Memory.Address.{page_align_down, page_align_up}
use emulator_momo.Memory.Protection.{
  has_bit, map_nt_to_emulator_protection, map_emulator_to_nt_protection,
}
use emulator_momo.Memory.Region.{Permission}
use emulator_momo.Memory.Reserved.{ReservedRegionMap, BackendCall, Outcome}
use emulator_momo.Memory.Manager.{
  or_no_access, protect_memory, commit_memory, decommit_memory, release_memory, allocate_memory,
}
use emulator_momo.Memory.Query.{find_free_allocation_base}
use emulator_momo.Objects.{status_success}
use emulator_momo.Syscalls.{status_not_supported}

abbrev pub status_memory_not_allocated : ℕ
status_memory_not_allocated = 0xc00000a0

abbrev pub status_invalid_address : ℕ
status_invalid_address = 0xc0000141

abbrev pub status_buffer_overflow : ℕ
status_buffer_overflow = 0x80000005

-- The word of the handle `CURRENT_PROCESS`.
abbrev pub current_process : ℕ
current_process = 0xffffffffffffffff

abbrev pub mem_commit : ℕ
mem_commit = 0x1000

abbrev pub mem_reserve : ℕ
mem_reserve = 0x2000

abbrev pub mem_decommit : ℕ
mem_decommit = 0x4000

abbrev pub mem_release : ℕ
mem_release = 0x8000

abbrev pub mem_free : ℕ
mem_free = 0x10000

abbrev pub mem_private : ℕ
mem_private = 0x20000

abbrev pub mem_top_down : ℕ
mem_top_down = 0x100000

-- The reply of `NtProtectVirtualMemory`; `old_protection` is `none` where it is not written.
pub record ProtectReply : Type 0 where
  pub status : Result ℕ
  pub base_address : ℕ
  pub bytes_to_protect : ℕ
  pub old_protection : Option ℕ
  pub regions : ReservedRegionMap
  pub calls : List BackendCall

unfoldable pub handle_nt_protect_virtual_memory : ReservedRegionMap → ℕ → ℕ → ℕ → ℕ → ProtectReply
handle_nt_protect_virtual_memory m process_handle orig_start orig_length protection =
    let aligned_start = page_align_down orig_start in
    let aligned_length = sub64 (page_align_up (add64 orig_start orig_length)) aligned_start in
    let reply : Result ℕ → ProtectReply = λ status. record {
      status = status;
      base_address = aligned_start;
      bytes_to_protect = aligned_length % u32_mod;
      old_protection = none;
      regions = m;
      calls = [];
    } in
    let protected : ProtectReply = elim (map_nt_to_emulator_protection protection) [
      | thrown ↦ reply thrown
      | ok p ↦ elim (protect_memory m aligned_start aligned_length p) [
        | thrown ↦ reply (ok status_invalid_address)
        | ok o ↦ record {
          status = ok status_success;
          base_address = aligned_start;
          bytes_to_protect = aligned_length % u32_mod;
          old_protection = some (map_emulator_to_nt_protection (or_no_access o.value.1));
          regions = o.regions;
          calls = o.calls;
        }
      ]
    ] in
    if not (process_handle == current_process)
    then record {
      status = ok status_not_supported;
      base_address = orig_start;
      bytes_to_protect = orig_length;
      old_protection = none;
      regions = m;
      calls = [];
    }
    else protected

-- The reply of `NtAllocateVirtualMemory` and `NtAllocateVirtualMemoryEx`.
pub record AllocateReply : Type 0 where
  pub status : Result ℕ
  pub base_address : ℕ
  pub bytes_to_allocate : ℕ
  pub regions : ReservedRegionMap
  pub calls : List BackendCall

-- `allocation_type & ~(MEM_RESERVE | MEM_COMMIT | MEM_TOP_DOWN)`
abbrev pub other_types : ℕ → ℕ
other_types t =
    t
    - mem_commit * (t / mem_commit % 2)
    - mem_reserve * (t / mem_reserve % 2)
    - mem_top_down * (t / mem_top_down % 2)

-- The end of the handler: the base is chosen and written, and the types are supported.
unfoldable pub reserve_or_commit :
    ReservedRegionMap → ℕ → ℕ → Permission → Bool → Bool → AllocateReply
reserve_or_commit m base bytes p reserve commit =
    let reply : Result ℕ → Outcome Bool → AllocateReply = λ status o. record {
      status = status;
      base_address = base;
      bytes_to_allocate = bytes;
      regions = o.regions;
      calls = o.calls;
    } in
    let allocate : ReservedRegionMap → List BackendCall → AllocateReply = λ m' calls.
      (let o = allocate_memory m' base bytes p (not commit) in
        reply (ok (if o.value then status_success else status_memory_not_allocated))
          (record o { calls = calls ++ o.calls })) in
    let committed : AllocateReply = elim (commit_memory m base bytes p) [
      | thrown ↦ reply thrown (record { value = false; regions = m; calls = [] })
      | ok o ↦ if o.value then reply (ok status_success) o else allocate o.regions o.calls
    ] in
    if commit && not reserve then committed else allocate m []

unfoldable pub handle_nt_allocate_virtual_memory_ex :
    ReservedRegionMap → ℕ → ℕ → ℕ → ℕ → ℕ → AllocateReply
unfolding reserve_or_commit
handle_nt_allocate_virtual_memory_ex m process_handle base_address bytes_to_allocate allocation_type
      page_protection =
    let bytes = page_align_up bytes_to_allocate in
    let base = if base_address == 0 then find_free_allocation_base m bytes 0 else base_address in
    let reserve = has_bit mem_reserve allocation_type in
    let commit = has_bit mem_commit allocation_type in
    let reply : Result ℕ → ℕ → ℕ → AllocateReply = λ status base bytes. record {
      status = status;
      base_address = base;
      bytes_to_allocate = bytes;
      regions = m;
      calls = [];
    } in
    let mapped : AllocateReply = elim (map_nt_to_emulator_protection page_protection) [
      | thrown ↦ reply thrown base_address bytes
      | ok p ↦
          if base == 0
          then reply (ok status_memory_not_allocated) base_address bytes
          else if not (other_types allocation_type == 0) || (not commit && not reserve)
          then reply thrown base bytes
          else reserve_or_commit m base bytes p reserve commit
    ] in
    if not (process_handle == current_process)
    then reply (ok status_not_supported) base_address bytes_to_allocate
    else mapped

-- The reply of `NtFreeVirtualMemory`.
pub record FreeReply : Type 0 where
  pub status : Result ℕ
  pub regions : ReservedRegionMap
  pub calls : List BackendCall

abbrev pub freed : ReservedRegionMap → Result (Outcome Bool) → FreeReply
freed m thrown = record { status = thrown; regions = m; calls = [] }
freed m (ok o) = record {
  status = ok (if o.value then status_success else status_memory_not_allocated);
  regions = o.regions;
  calls = o.calls;
}

unfoldable pub handle_nt_free_virtual_memory : ReservedRegionMap → ℕ → ℕ → ℕ → ℕ → FreeReply
handle_nt_free_virtual_memory m process_handle allocation_base allocation_size free_type =
    if not (process_handle == current_process)
    then record { status = ok status_not_supported; regions = m; calls = [] }
    else if has_bit mem_release free_type
    then freed m (release_memory m allocation_base allocation_size)
    else if has_bit mem_decommit free_type
    then freed m (decommit_memory m allocation_base allocation_size)
    else record { status = thrown; regions = m; calls = [] }
