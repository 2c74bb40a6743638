-- ===== src/Tests/Syscalls.antt =====
-- The system calls on virtual memory, and the theorems at concrete inputs.
use emulator_momo.Common.{◌+◌, ◌≡◌, refl, true, false, none, some, [], arith, add64, sub64, ok}
use emulator_momo.Memory.Address.{
  align_down, align_up, regions_with_length_intersect, page_align_down, page_align_up,
}
use emulator_momo.Memory.Protection.{page_noaccess, map_nt_to_emulator_protection, map_unguarded}
use emulator_momo.Memory.Reserved.{overlaps_reserved_region, find_reserved_region}
use emulator_momo.Memory.Reserved.Range.{Targets}
use emulator_momo.Memory.Reserved.Valid.{mapped_at, is_reserved, in_range}
use emulator_momo.Memory.Spans.{containing, last_le}
use emulator_momo.Memory.Manager.{allocate_memory}
use emulator_momo.Objects.{status_success}
use emulator_momo.Syscalls.Memory.{
  handle_nt_protect_virtual_memory, handle_nt_allocate_virtual_memory_ex, reserve_or_commit,
  current_process, status_invalid_address,
}
use emulator_momo.Syscalls.Memory.Protect.{
  pages_from, pages_length, Reprotected, handle_nt_protect_virtual_memory-Reprotected,
  handle_nt_protect_virtual_memory_outside,
}
use emulator_momo.Syscalls.Memory.Allocate.{SaysCommitted, reply, pages, allocate-query}
use emulator_momo.Syscalls.Query.{basic_class, basic_size, handle_nt_query_virtual_memory}
use emulator_momo.Tests.Memory.{one_stack, one_stack-IsValid, stack_entry, stack_found}

-- The pages from 0x11000 to 0x14000.
first_page : pages_from 0x11005 ≡ 0x11000
unfolding page_align_down align_down
first_page = refl

three_pages : pages_length 0x11005 0x2800 ≡ 0x3000
unfolding page_align_down page_align_up align_up align_down add64 sub64
three_pages = refl

pages_target :
    Targets one_stack (pages_from 0x11005) (pages_length 0x11005 0x2800) 0x10000 stack_entry
unfolding page_align_down page_align_up align_up align_down sub64 add64
pages_target = record { valid = one_stack-IsValid; found = stack_found; fits = omega arith }

handle_nt_protect_virtual_memory-Reprotected_example :
    Reprotected one_stack
      (pages_from 0x11005)
      (pages_length 0x11005 0x2800)
      1
      (handle_nt_protect_virtual_memory one_stack current_process 0x11005 0x2800 2)
handle_nt_protect_virtual_memory-Reprotected_example =
    handle_nt_protect_virtual_memory-Reprotected one_stack 0x11005 0x2800 2 0x10000 stack_entry 1
      (unfold map_nt_to_emulator_protection map_unguarded in refl) pages_target

-- A page outside every reservation, and two pages of which the second lies behind the reservation.
free_page : pages_from 0x20000 ≡ 0x20000
unfolding page_align_down align_down
free_page = refl

one_page : pages_length 0x20000 0x1000 ≡ 0x1000
unfolding page_align_down page_align_up align_up align_down add64 sub64
one_page = refl

last_page : pages_from 0x14000 ≡ 0x14000
unfolding page_align_down align_down
last_page = refl

two_pages : pages_length 0x14000 0x2000 ≡ 0x2000
unfolding page_align_down page_align_up align_up align_down add64 sub64
two_pages = refl

free_page-unreserved : is_reserved one_stack (pages_from 0x20000) ≡ false
unfolding page_align_down align_down is_reserved containing
free_page-unreserved = refl

last_page-found : find_reserved_region one_stack (pages_from 0x14000) ≡ some (0x10000, stack_entry)
unfolding page_align_down align_down find_reserved_region last_le add64
last_page-found = refl

handle_nt_protect_virtual_memory_outside_example :
    let q = handle_nt_protect_virtual_memory one_stack current_process 0x20000 0x1000 2 in
    let q' = handle_nt_protect_virtual_memory one_stack current_process 0x14000 0x2000 2 in
    ((q.status ≡ ok status_success)
      × (q.old_protection ≡ some page_noaccess)
      × (q.regions ≡ one_stack)
      × (q.calls ≡ []))
    × ((q'.status ≡ ok status_invalid_address)
        × (q'.old_protection ≡ none)
        × (q'.regions ≡ one_stack)
        × (q'.calls ≡ []))
unfolding map_nt_to_emulator_protection map_unguarded
handle_nt_protect_virtual_memory_outside_example = (
  (handle_nt_protect_virtual_memory_outside one_stack 0x20000 0x1000 2 1 refl one_stack-IsValid
        (omega (arith, free_page, one_page))).0
      free_page-unreserved,
  (handle_nt_protect_virtual_memory_outside one_stack 0x14000 0x2000 2 1 refl one_stack-IsValid
        (omega (arith, last_page, two_pages))).1
      0x10000 stack_entry last_page-found (omega (arith, last_page, two_pages)),
)

-- Two pages at 0x20000, reserved and committed for reading.
allocated_lem :
    ((reply one_stack 0x20000 0x1800 0x3000 2).status ≡ ok status_success)
    × ((reply one_stack 0x20000 0x1800 0x3000 2).base_address ≡ 0x20000)
    × (pages one_stack 0x20000 0x1800 0x3000 2 ≡ 0x2000)
unfolding handle_nt_allocate_virtual_memory_ex reserve_or_commit allocate_memory
    map_nt_to_emulator_protection map_unguarded page_align_up align_up align_down
    overlaps_reserved_region regions_with_length_intersect add64
allocated_lem = (refl, refl, refl)

allocate-query_example :
    let q = reply one_stack 0x20000 0x1800 0x3000 2 in
    let size = pages one_stack 0x20000 0x1800 0x3000 2 in
    (in_range q.base_address (q.base_address + size) 0x21000 ≡ true
      → (is_reserved one_stack 0x21000 ≡ false)
        × SaysCommitted (
            handle_nt_query_virtual_memory q.regions [] current_process 0x21000 basic_class
              basic_size true))
    × (in_range q.base_address (q.base_address + size) 0x21000 ≡ false
        → mapped_at q.regions 0x21000 ≡ mapped_at one_stack 0x21000)
allocate-query_example =
    allocate-query one_stack 0x20000 0x1800 0x3000 2 [] 0x21000 true one_stack-IsValid refl refl
      allocated_lem.0 (omega (arith, allocated_lem.1, allocated_lem.2))
      (omega (arith, allocated_lem.2))
