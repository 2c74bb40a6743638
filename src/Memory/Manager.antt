-- ===== src/Memory/Manager.antt =====
-- src/emulator/memory_manager.cpp: the operations that change the reserved regions.
pub mod Protect
pub mod Decommit
pub mod Fill
pub mod CommitLoop
pub mod Commit
pub mod Release
pub mod Grow
pub mod Allocate
pub mod Errors
pub mod Steps
pub mod Reservations
pub mod Runs
use emulator_momo.Common.{
  ℕ, ◌+◌, ◌<◌, Bool, true, false, ◌&&◌, ◌||◌, Option, none, some, List, [], ◌∷◌, ◌++◌, lookup, put,
  erase, ltb, leb, ◌==◌, if◌then◌else◌, add64, sub64, Result, ok, thrown,
}
use emulator_momo.Memory.Region.{
  Permission, no_access, read_write, CommittedRegion, CommittedRegionMap, split_regions,
  merge_regions,
}
use emulator_momo.Memory.Reserved.{
  ReservedRegion, ReservedRegionMap, BackendCall, map_mmio, map_memory, unmap_memory,
  apply_protection, Outcome, unchanged, find_reserved_region, overlaps_reserved_region,
}

-- The loop of `protect_memory`: the permissions of the first region that it changes, the map, and
-- the calls.
unfoldable pub protect_loop :
    ℕ
    → ℕ
    → Permission
    → CommittedRegionMap
    → Option Permission × CommittedRegionMap × List BackendCall
protect_loop address end permissions [] = (none, [], [])
protect_loop address end permissions ((first, r) ∷ m) =
    let (old, m', calls) = protect_loop address end permissions m in
    if leb end first
    then (none, (first, r) ∷ m, [])
    else if leb address first && leb (add64 first r.length) end
    then (
      some r.permissions,
      (first, record r { permissions = permissions }) ∷ m',
      apply_protection first r.length permissions ∷ calls,
    )
    else (old, (first, r) ∷ m', calls)

-- `value_or(memory_permission::none)`
abbrev pub or_no_access : Option Permission → Permission
or_no_access none = no_access
or_no_access (some p) = p

-- The second component of the value is what is written to `*old_permissions`; `none` is no write.
unfoldable pub protect_memory :
    ReservedRegionMap → ℕ → ℕ → Permission → Result (Outcome (Bool × Option Permission))
unfolding protect_loop
protect_memory m address size permissions =
    let end = add64 address size in
    elim (find_reserved_region m address) [
      | none ↦ ok (unchanged (false, none) m)
      | some (base, entry) ↦
          let (old, committed, calls) =
            protect_loop address end permissions
              (split_regions entry.committed (address ∷ end ∷ [])) in
          if ltb (add64 base entry.length) end
          then thrown
          else ok (record {
            value = (true, some (or_no_access old));
            regions = put base (record entry { committed = merge_regions committed }) m;
            calls = calls;
          })
    ]

-- `try_emplace`
pub try_emplace : ℕ → ReservedRegion → ReservedRegionMap → ReservedRegionMap
try_emplace k r m = elim (lookup k m) [ none ↦ put k r m | some _ ↦ m ]

-- `entry->second.committed_regions[address] = region` for the entry at `address`
pub commit_at : ℕ → CommittedRegion → ReservedRegionMap → ReservedRegionMap
commit_at address region m = elim (lookup address m) [
  | none ↦ m
  | some r ↦ put address (record r { committed = put address region r.committed }) m
]

pub allocate_mmio : ReservedRegionMap → ℕ → ℕ → Outcome Bool
allocate_mmio m address size =
    let entry : ReservedRegion = record { length = size; committed = []; is_mmio = true } in
    let region : CommittedRegion = record { length = size; permissions = read_write } in
    if overlaps_reserved_region m address size then unchanged false m else record {
      value = true;
      regions = commit_at address region (try_emplace address entry m);
      calls = map_mmio address size ∷ [];
    }

-- The committed region is recorded with `read_write`, whatever `permissions` is.
unfoldable pub allocate_memory : ReservedRegionMap → ℕ → ℕ → Permission → Bool → Outcome Bool
allocate_memory m address size permissions reserve_only =
    let entry : ReservedRegion = record { length = size; committed = []; is_mmio = false } in
    let region : CommittedRegion = record { length = size; permissions = read_write } in
    let reserved = try_emplace address entry m in
    if overlaps_reserved_region m address size
    then unchanged false m
    else if reserve_only
    then unchanged true reserved
    else record {
      value = true;
      regions = commit_at address region reserved;
      calls = map_memory address size permissions ∷ [];
    }

-- The variables of the loop of `commit_memory`.
pub record CommitState : Type 0 where
  pub last : Option (ℕ × CommittedRegion)
  pub regions : CommittedRegionMap
  pub calls : List BackendCall

-- Where the gap before the next region starts.
pub commit_start : ℕ → Option (ℕ × CommittedRegion) → ℕ
commit_start address none = address
commit_start address (some (first, r)) = add64 first r.length

-- Maps and records `map_length` bytes from `map_start` on.
pub commit_gap : ℕ → ℕ → Permission → CommitState → CommitState
commit_gap map_start map_length permissions s = record s {
  regions = put map_start (record { length = map_length; permissions = permissions }) s.regions;
  calls = s.calls ++ map_memory map_start map_length permissions ∷ [];
}

pub commit_step : ℕ → ℕ → Permission → ℕ → CommittedRegion → CommitState → CommitState
commit_step address end permissions first r s =
    let map_start = commit_start address s.last in
    let map_length = sub64 first map_start in
    let filled = if ltb 0 map_length then commit_gap map_start map_length permissions s else s in
    if leb address first && leb (add64 first r.length) end
    then record filled { last = some (first, r) }
    else s

-- The loop over the regions that stood in the map at its start: what the loop puts in stands
-- before the iterator.
pub commit_loop : ℕ → ℕ → Permission → CommittedRegionMap → CommitState → CommitState
commit_loop address end permissions [] s = s
commit_loop address end permissions ((first, r) ∷ m) s =
    let rest =
      commit_loop address end permissions m (commit_step address end permissions first r s) in
    if leb end first then s else rest

-- `!last_region || last_region_start + last_region->length < end`
pub tail_open : ℕ → Option (ℕ × CommittedRegion) → Bool
tail_open end none = true
tail_open end (some (first, r)) = ltb (add64 first r.length) end

pub commit_tail : ℕ → ℕ → Permission → CommitState → CommitState
commit_tail address end permissions s =
    let map_start = commit_start address s.last in
    if tail_open end s.last then commit_gap map_start (sub64 end map_start) permissions s else s

pub commit_memory : ReservedRegionMap → ℕ → ℕ → Permission → Result (Outcome Bool)
commit_memory m address size permissions =
    let end = add64 address size in
    elim (find_reserved_region m address) [
      | none ↦ ok (unchanged false m)
      | some (base, entry) ↦
          let split = split_regions entry.committed (address ∷ end ∷ []) in
          let s = commit_tail address end permissions (
            commit_loop address end permissions split
              (record { last = none; regions = split; calls = [] })) in
          if ltb (add64 base entry.length) end
          then thrown
          else ok (record {
            value = true;
            regions = put base (record entry { committed = merge_regions s.regions }) m;
            calls = s.calls;
          })
    ]

-- The loop of `decommit_memory` and `release_memory`.
pub unmap_loop : ℕ → ℕ → CommittedRegionMap → CommittedRegionMap × List BackendCall
unmap_loop address end [] = ([], [])
unmap_loop address end ((first, r) ∷ m) =
    let (m', calls) = unmap_loop address end m in
    if leb end first
    then ((first, r) ∷ m, [])
    else if leb address first && leb (add64 first r.length) end
    then (m', unmap_memory first r.length ∷ calls)
    else ((first, r) ∷ m', calls)

pub decommit_memory : ReservedRegionMap → ℕ → ℕ → Result (Outcome Bool)
unfolding unmap_loop
decommit_memory m address size =
    let end = add64 address size in
    elim (find_reserved_region m address) [
      | none ↦ ok (unchanged false m)
      | some (base, entry) ↦
          let (committed, calls) =
            unmap_loop address end (split_regions entry.committed (address ∷ end ∷ [])) in
          if entry.is_mmio
          then thrown
          else if ltb (add64 base entry.length) end
          then thrown
          else ok (record {
            value = true;
            regions = put base (record entry { committed = committed }) m;
            calls = calls;
          })
    ]

-- A size of 0 stands for the whole region.
pub release_memory : ReservedRegionMap → ℕ → ℕ → Result (Outcome Bool)
unfolding unmap_loop
release_memory m address size₀ = elim (lookup address m) [
  | none ↦ ok (unchanged false m)
  | some entry ↦
      let size = if size₀ == 0 then entry.length else size₀ in
      let end = add64 address size in
      let (committed, calls) = unmap_loop address end (split_regions entry.committed (end ∷ [])) in
      let left = record entry { length = sub64 entry.length size; committed = committed } in
      let moved = if ltb 0 left.length then put (add64 address size) left m else m in
      if ltb entry.length size
      then thrown
      else ok (record { value = true; regions = erase address moved; calls = calls })
]
