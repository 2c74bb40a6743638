-- ===== src/Syscalls/Memory/Free.antt =====
-- src/windows-emulator/syscalls.cpp: what `NtFreeVirtualMemory` releases.
use emulator_momo.Common.{
  ℕ, ◌+◌, ◌≤◌, ◌<◌, ◌≡◌, refl, true, none, some, [], lookup, lt→ltb, ok, thrown,
}
use emulator_momo.Memory.Protection.{has_bit}
use emulator_momo.Memory.Reserved.{ReservedRegion, ReservedRegionMap}
use emulator_momo.Memory.Reserved.Valid.{IsValid}
use emulator_momo.Memory.Manager.Errors.{release_memory_large, release_memory_absent}
use emulator_momo.Memory.Manager.Release.{Released, released_size, release_memory-Released}
use emulator_momo.Objects.{status_success}
use emulator_momo.Syscalls.Memory.{
  handle_nt_free_virtual_memory, current_process, mem_release, status_memory_not_allocated,
}

-- In a valid map, a call that releases memory frees the whole reservation that starts at the base, or the front
-- part of the size that is given, in the map and in the backend, and succeeds; a size larger than the reservation is an exception that
-- changes nothing, and a base where no reservation starts is STATUS_MEMORY_NOT_ALLOCATED and changes nothing.
pub handle_nt_free_virtual_memory_release :
    (m : ReservedRegionMap) (base size free_type : ℕ)
    → IsValid m
    → has_bit mem_release free_type ≡ true
    → let q = handle_nt_free_virtual_memory m current_process base size free_type in
      ((r : ReservedRegion)
        → lookup base m ≡ some r
        → (released_size size r ≤ r.length
            → (q.status ≡ ok status_success)
              × Released m base
                  (base + released_size size r)
                  (record { value = true; regions = q.regions; calls = q.calls }))
          × (r.length < released_size size r
              → (q.status ≡ thrown) × (q.regions ≡ m) × (q.calls ≡ [])))
      × (lookup base m ≡ none
          → (q.status ≡ ok status_memory_not_allocated) × (q.regions ≡ m) × (q.calls ≡ []))
unfolding handle_nt_free_virtual_memory
handle_nt_free_virtual_memory_release m base size free_type v bit = (
  λ r found. (
    λ fits.
        let (o, run, h) = release_memory-Released m base size r v found fits in
        rw (bit, run, h.succeeded)
          (
            refl,
            record {
              succeeded = refl;
              valid = h.valid;
              mapped = h.mapped;
              reserved = h.reserved;
              mirrored = h.mirrored;
            },
          ),
    λ large.
        let past = lt→ltb r.length (released_size size r) large in
        rw (bit, release_memory_large m base size r found past) (refl, refl, refl),
  ),
  λ absent. rw (bit, release_memory_absent m base size absent) (refl, refl, refl),
)
