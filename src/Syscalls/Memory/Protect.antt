-- ===== src/Syscalls/Memory/Protect.antt =====
-- src/windows-emulator/syscalls.cpp: what `NtProtectVirtualMemory` does to the memory of the guest.
use emulator_momo.Common.{
  ℕ, ◌+◌, ◌≤◌, ◌<◌, ◌≡◌, refl, none, some, [], if◌then◌else◌, add64, sub64, u32_mod, ◌%◌, false,
  arith, ok,
}
use emulator_momo.Memory.Address.{page_align_down, page_align_up}
use emulator_momo.Memory.Protection.{
  page_noaccess, map_nt_to_emulator_protection, map_emulator_to_nt_protection,
}
use emulator_momo.Memory.Region.{Permission}
use emulator_momo.Memory.Reserved.{ReservedRegion, ReservedRegionMap, find_reserved_region}
use emulator_momo.Memory.Reserved.Range.{Targets}
use emulator_momo.Memory.Reserved.Valid.{top, IsValid, mapped_at, replay, in_range, is_reserved}
use emulator_momo.Memory.Manager.Errors.{range_operations_refuse}
use emulator_momo.Memory.Manager.Protect.{repermit, protect_memory-Protected}
use emulator_momo.Objects.{status_success}
use emulator_momo.Syscalls.Memory.{
  ProtectReply, handle_nt_protect_virtual_memory, current_process, status_invalid_address,
}

-- The whole pages that a range of bytes meets: their start and their length.
abbrev pub pages_from : ℕ → ℕ
pages_from = page_align_down

abbrev pub pages_length : ℕ → ℕ → ℕ
pages_length start bytes = sub64 (page_align_up (add64 start bytes)) (page_align_down start)

-- The pages from `start` on, `size` bytes, have the permission `p`, and the guest is told so.
pub record Reprotected (m : ReservedRegionMap) (start size : ℕ) (p : Permission) (q : ProtectReply)
    : Type 0 where
  pub succeeded : q.status ≡ ok status_success
  pub base : q.base_address ≡ start
  pub bytes : q.bytes_to_protect ≡ size % u32_mod
  pub old :
      (c : Permission)
      → 0 < size
      → mapped_at m start ≡ some c
      → q.old_protection ≡ some (map_emulator_to_nt_protection c)
  pub valid : IsValid q.regions
  pub mapped :
      (x : ℕ)
      → mapped_at q.regions x
        ≡ (if in_range start (start + size) x then repermit p (mapped_at m x) else mapped_at m x)
  pub mirrored : (x : ℕ) → replay q.calls x (mapped_at m x) ≡ mapped_at q.regions x

-- A protection of pages inside one reservation of a valid map, with a protection that is supported,
-- succeeds: every mapped byte of these pages has the new permission, in the map and in the backend, nothing
-- else changes, and the guest reads the start and the size of the pages and the protection that the first of them had, if it was mapped.
pub handle_nt_protect_virtual_memory-Reprotected :
    (m : ReservedRegionMap) (start bytes protection a : ℕ) (r : ReservedRegion) (p : Permission)
    → map_nt_to_emulator_protection protection ≡ ok p
    → Targets m (pages_from start) (pages_length start bytes) a r
    → Reprotected m
        (pages_from start)
        (pages_length start bytes)
        p
        (handle_nt_protect_virtual_memory m current_process start bytes protection)
unfolding handle_nt_protect_virtual_memory
handle_nt_protect_virtual_memory-Reprotected m start bytes protection a r p e t =
    let (o, run, h) =
      protect_memory-Protected m (pages_from start) (pages_length start bytes) a r p t in
    rw (e, run)
      (record {
        succeeded = refl;
        base = refl;
        bytes = refl;
        old = λ c n f. rw (h.old c (omega (arith, n)) f) refl;
        valid = h.valid;
        mapped = h.mapped;
        mirrored = h.mirrored;
      })

-- In a valid map, for pages that do not pass the top of the address space and a protection that is
-- supported, nothing changes where the pages start outside every reservation, and the guest is told that the call
-- succeeded and that they had no access before; nothing changes where they leave their reservation, and the guest reads
-- STATUS_INVALID_ADDRESS and no old protection.
pub handle_nt_protect_virtual_memory_outside :
    (m : ReservedRegionMap) (start bytes protection : ℕ) (p : Permission)
    → map_nt_to_emulator_protection protection ≡ ok p
    → IsValid m
    → pages_from start + pages_length start bytes ≤ top
    → let q = handle_nt_protect_virtual_memory m current_process start bytes protection in
      (is_reserved m (pages_from start) ≡ false
        → (q.status ≡ ok status_success)
          × (q.old_protection ≡ some page_noaccess)
          × (q.regions ≡ m)
          × (q.calls ≡ []))
      × ((a : ℕ) (r : ReservedRegion)
          → find_reserved_region m (pages_from start) ≡ some (a, r)
          → a + r.length < pages_from start + pages_length start bytes
          → (q.status ≡ ok status_invalid_address)
            × (q.old_protection ≡ none)
            × (q.regions ≡ m)
            × (q.calls ≡ []))
unfolding handle_nt_protect_virtual_memory map_emulator_to_nt_protection
handle_nt_protect_virtual_memory_outside m start bytes protection p e v k =
    let refuse = range_operations_refuse m (pages_from start) (pages_length start bytes) p v k in
    (
      λ free. rw (e, (refuse.0 free).0) (refl, refl, refl, refl),
      λ a r found past. rw (e, (refuse.1 a r found past).0) (refl, refl, refl, refl),
    )
