-- ===== src/Memory/Query.antt =====
-- src/emulator/memory_manager.cpp: `find_free_allocation_base` and `get_region_info`.
pub mod FreeBase
pub mod Info
use emulator_momo.Common.{
  ℕ, ◌-◌, ◌⊎◌, inl, inr, Bool, true, false, not, none, some, [], ◌∷◌, ltb, leb, ◌==◌, if◌then◌else◌,
  add64, sub64, max,
}
use emulator_momo.Memory.Address.{regions_with_length_intersect, page_align_up}
use emulator_momo.Memory.Spans.{last_le}
use emulator_momo.Memory.Region.{Permission, no_access, CommittedRegion, CommittedRegionMap}
use emulator_momo.Memory.Reserved.{
  min_allocation_address, max_allocation_address, ReservedRegion, ReservedRegionMap,
}

-- The loop of `find_free_allocation_base`: `inl` is its early return, `inr` the start address that
-- it ends with.
unfoldable pub free_base_loop : ReservedRegionMap → ℕ → ℕ → ℕ ⊎ ℕ
free_base_loop [] size start = inr start
free_base_loop ((first, r) ∷ m) size start =
    let region_end = add64 first r.length in
    let skip = free_base_loop m size start in
    let advance = free_base_loop m size (page_align_up region_end) in
    if ltb region_end start
    then skip
    else if not (regions_with_length_intersect start size first r.length)
    then inl start
    else advance

unfoldable pub find_free_allocation_base : ReservedRegionMap → ℕ → ℕ → ℕ
unfolding free_base_loop
find_free_allocation_base m size start =
    let first = max min_allocation_address (if start == 0 then 0x100000000 else start) in
    elim (free_base_loop m size first) [
      | inl found ↦ found
      | inr end ↦ if leb (add64 end size) max_allocation_address then end else 0
    ]

pub record RegionInfo : Type 0 where
  pub start : ℕ
  pub length : ℕ
  pub permissions : Permission
  pub allocation_base : ℕ
  pub allocation_length : ℕ
  pub is_reserved : Bool
  pub is_committed : Bool

abbrev free_region_info : RegionInfo
free_region_info = record {
  start = min_allocation_address;
  length = max_allocation_address - min_allocation_address;
  permissions = no_access;
  allocation_base = 0;
  allocation_length = max_allocation_address - min_allocation_address;
  is_reserved = false;
  is_committed = false;
}

-- The second half of `get_region_info`: `address` lies in the reserved region `r` at `base`.
pub committed_info : CommittedRegionMap → ℕ → RegionInfo → RegionInfo
committed_info [] address info = info
committed_info ((first, r) ∷ m) address info =
    elim (last_le (λ (r : CommittedRegion). r.length) address ((first, r) ∷ m)) [
      | none ↦ record info { length = sub64 first info.start }
      | some e ↦
          let lower_end = add64 e.0 e.1.length in
          let end = add64 info.allocation_base info.allocation_length in
          if leb lower_end address
          then record info { start = lower_end; length = sub64 end lower_end }
          else record info {
            is_committed = true;
            start = e.0;
            length = e.1.length;
            permissions = e.1.permissions;
          }
    ]

pub get_region_info : ReservedRegionMap → ℕ → RegionInfo
unfolding committed_info
get_region_info [] address = free_region_info
get_region_info ((first, r) ∷ m) address =
    elim (last_le (λ (r : ReservedRegion). r.length) address ((first, r) ∷ m)) [
      | none ↦ record free_region_info { length = sub64 first free_region_info.start }
      | some e ↦
          let lower_end = add64 e.0 e.1.length in
          if leb lower_end address
          then record free_region_info {
            start = lower_end;
            length = sub64 max_allocation_address lower_end;
          }
          else committed_info e.1.committed address (record free_region_info {
            is_reserved = true;
            allocation_base = e.0;
            allocation_length = e.1.length;
            start = e.0;
            length = e.1.length;
          })
    ]
