-- ===== src/Tests/Memory.antt =====
-- The memory manager at one reservation with two committed regions.
use emulator_momo.Common.{
  ◌+◌, ◌≤◌, ◌≡◌, refl, true, false, ◌⊎◌, some, [], ◌∷◌, arith, Returns, lookup, put, add64, sub64,
}
use emulator_momo.Memory.Address.{is_within_start_and_length, regions_with_length_intersect}
use emulator_momo.Memory.Spans.{last_le}
use emulator_momo.Memory.Region.{CommittedRegionMap, read_write, split_regions}
use emulator_momo.Memory.Region.Split.{IsSplit, split_regions-IsSplit}
use emulator_momo.Memory.Reserved.{
  ReservedRegion, ReservedRegionMap, find_reserved_region, overlaps_reserved_region,
}
use emulator_momo.Memory.Manager.{
  protect_memory, commit_memory, decommit_memory, release_memory, allocate_memory, protect_loop,
}
use emulator_momo.Memory.Query.{find_free_allocation_base, get_region_info, free_base_loop}
use emulator_momo.Memory.Reserved.Valid.{IsValid, mapped_at, is_reserved}
use emulator_momo.Memory.Reserved.Range.{Targets}
use emulator_momo.Memory.Manager.Protect.{Protected, protect_memory-Protected}
use emulator_momo.Memory.Manager.Commit.{Committed, commit_memory-Committed}
use emulator_momo.Memory.Manager.Decommit.{Decommitted, decommit_memory-Decommitted}
use emulator_momo.Memory.Manager.Release.{Released, release_memory-Released}
use emulator_momo.Memory.Manager.Grow.{Refused, Allocated}
use emulator_momo.Memory.Manager.Allocate.{allocate_memory_cases}
use emulator_momo.Memory.Query.FreeBase.{first_base, find_free_allocation_base-free}
use emulator_momo.Memory.Query.Info.{reported, get_region_info-reported}

abbrev stack_regions : CommittedRegionMap
stack_regions =
    (0x10000, record { length = 0x2000; permissions = 3 })
    ∷ (0x13000, record { length = 0x1000; permissions = 1 })
    ∷ []

abbrev pub stack_entry : ReservedRegion
stack_entry = record { length = 0x5000; committed = stack_regions; is_mmio = false }

abbrev pub one_stack : ReservedRegionMap
one_stack = (0x10000, stack_entry) ∷ []

pub one_stack-IsValid : IsValid one_stack
one_stack-IsValid = record { reserved = omega arith; committed = omega arith }

pub stack_found : find_reserved_region one_stack 0x11000 ≡ some (0x10000, stack_entry)
unfolding find_reserved_region last_le add64
stack_found = refl

pub stack_target : Targets one_stack 0x11000 0x3000 0x10000 stack_entry
stack_target = record { valid = one_stack-IsValid; found = stack_found; fits = omega arith }

split_regions-IsSplit_example :
    IsSplit 0x10000 0x15000
      (0x11000 ∷ 0x14000 ∷ [])
      stack_regions
      (split_regions stack_regions (0x11000 ∷ 0x14000 ∷ []))
split_regions-IsSplit_example =
    split_regions-IsSplit 0x10000 0x15000 (0x11000 ∷ 0x14000 ∷ []) stack_regions (omega arith)
      (omega arith)

protect_memory-Protected_example :
    Returns
      (protect_memory one_stack 0x11000 0x3000 7)
      (Protected one_stack 0x11000 (0x11000 + 0x3000) 7)
protect_memory-Protected_example =
    protect_memory-Protected one_stack 0x11000 0x3000 0x10000 stack_entry 7 stack_target

commit_memory-Committed_example :
    Returns
      (commit_memory one_stack 0x11000 0x3000 7)
      (Committed one_stack 0x11000 (0x11000 + 0x3000) 7)
commit_memory-Committed_example =
    commit_memory-Committed one_stack 0x11000 0x3000 0x10000 stack_entry 7 stack_target
      (omega arith)

decommit_memory-Decommitted_example :
    Returns
      (decommit_memory one_stack 0x11000 0x3000)
      (Decommitted one_stack 0x11000 (0x11000 + 0x3000))
decommit_memory-Decommitted_example =
    decommit_memory-Decommitted one_stack 0x11000 0x3000 0x10000 stack_entry stack_target refl

release_memory-Released_example :
    Returns
      (release_memory one_stack 0x10000 0x1000)
      (Released one_stack 0x10000 (0x10000 + 0x1000))
release_memory-Released_example =
    release_memory-Released one_stack 0x10000 0x1000 stack_entry one_stack-IsValid
      (unfold lookup in refl) (omega arith)

allocate_memory_cases_example :
    Refused one_stack 0x20000 (0x20000 + 0x1000) (allocate_memory one_stack 0x20000 0x1000 1 false)
    ⊎ Allocated one_stack 0x20000
        (0x20000 + 0x1000)
        (some read_write)
        (some 1)
        (allocate_memory one_stack 0x20000 0x1000 1 false)
allocate_memory_cases_example =
    allocate_memory_cases one_stack 0x20000 0x1000 1 false one_stack-IsValid (omega arith)
      (omega arith)

allocated : (allocate_memory one_stack 0x20000 0x1000 1 false).value ≡ true
unfolding allocate_memory overlaps_reserved_region regions_with_length_intersect add64
allocated = refl

-- The search from 0 starts at 4 GiB and finds it free.
found_free : find_free_allocation_base one_stack 0x1000 0 ≡ 0x100000000
unfolding find_free_allocation_base free_base_loop add64
found_free = refl

find_free_allocation_base-free_example :
    (find_free_allocation_base one_stack 0x1000 0 ≡ 0)
    ⊎ ((first_base 0 ≤ find_free_allocation_base one_stack 0x1000 0)
        × (overlaps_reserved_region one_stack (find_free_allocation_base one_stack 0x1000 0) 0x1000
            ≡ false))
find_free_allocation_base-free_example =
    find_free_allocation_base-free one_stack 0x1000 0 (omega arith) (omega arith) (omega arith)
      (rw found_free (omega arith))

abbrev two_entries : ReservedRegionMap
two_entries =
    (0xffff0000, record { length = 0x10000; committed = []; is_mmio = false })
    ∷ (0x100000000, record { length = 0x1000; committed = []; is_mmio = false })
    ∷ []

get_region_info-reported_example :
    ((get_region_info one_stack 0x13800).is_reserved ≡ is_reserved one_stack 0x13800)
    × (reported (get_region_info one_stack 0x13800) ≡ mapped_at one_stack 0x13800)
get_region_info-reported_example = get_region_info-reported one_stack 0x13800 one_stack-IsValid

-- A protection of the middle of the first region splits it, and keeps the second apart.
protected_run :
    (protect_loop 0x10000 0x11000 1 (split_regions stack_regions (0x10000 ∷ 0x11000 ∷ []))).0
    ≡ some 3
unfolding protect_loop split_regions is_within_start_and_length add64 sub64 put
protected_run = refl
