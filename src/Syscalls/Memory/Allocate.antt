-- ===== src/Syscalls/Memory/Allocate.antt =====
-- src/windows-emulator/syscalls.cpp: what `NtAllocateVirtualMemory` gives the guest, as
-- `NtQueryVirtualMemory` reports it.
use mathlib.Core.Bool.{false≢true}
use emulator_momo.Common.{
  ℕ, ◌+◌, ◌≤◌, ◌<◌, ◌≡◌, ◌≢◌, refl, sym, ap, subst, ◌∙◌, Bool, true, false, not, ◌&&◌, ◌||◌, inl,
  inr, some, if◌then◌else◌, ◌==◌, arith, Bool-cases, Dict, Result, ok, thrown, ok≢thrown,
  ok_injective,
}
use emulator_momo.Memory.Address.{page_align_up}
use emulator_momo.Memory.Protection.{
  has_bit, page_readwrite, map_nt_to_emulator_protection, map_emulator_to_nt_protection,
}
use emulator_momo.Memory.Region.{Permission, read_write}
use emulator_momo.Memory.Reserved.{ReservedRegionMap}
use emulator_momo.Memory.Reserved.Valid.{top, IsValid, mapped_at, in_range, is_reserved}
use emulator_momo.Memory.Manager.Allocate.{allocate_memory_cases}
use emulator_momo.Memory.Manager.Grow.{Allocated}
use emulator_momo.Memory.Query.{RegionInfo, get_region_info, find_free_allocation_base}
use emulator_momo.Memory.Query.Info.{reported, get_region_info-reported}
use emulator_momo.Objects.{status_success}
use emulator_momo.Syscalls.Query.{
  QueryReply, BasicInformation, basic, basic_class, basic_size, basic_information, query_basic,
  handle_nt_query_virtual_memory,
}
use emulator_momo.Modules.{MappedModule}
use emulator_momo.Syscalls.Memory.{
  AllocateReply, handle_nt_allocate_virtual_memory_ex, reserve_or_commit, current_process,
  mem_commit, mem_reserve, other_types, status_memory_not_allocated,
}

if_success :
    (b : Bool) (x y : AllocateReply)
    → x.status ≢ ok status_success
    → (if b then x else y).status ≡ ok status_success
    → (if b then x else y) ≡ y
if_success true x y n e = absurd (n e)
if_success false x y n e = refl

mapped_success :
    (q : Result Permission) (x : AllocateReply) (f : Permission → AllocateReply)
    → x.status ≢ ok status_success
    → (elim q as (λ z. AllocateReply) [ thrown ↦ x | ok p ↦ f p ]).status ≡ ok status_success
    → (p : Permission) × (q ≡ ok p)
      × ((elim q as (λ z. AllocateReply) [ thrown ↦ x | ok p ↦ f p ]) ≡ f p)
mapped_success thrown x f n e = absurd (n e)
mapped_success (ok p) x f n e = (p, refl, refl)

no_success : ok status_memory_not_allocated ≢ ok status_success
no_success e = absurd (omega (arith, ok_injective e))

value_success :
    (b : Bool)
    → ok (if b then status_success else status_memory_not_allocated) ≡ ok status_success
    → b ≡ true
value_success true e = refl
value_success false e = absurd (no_success e)

reported-some :
    (i : RegionInfo)
    → reported i ≡ some read_write
    → (i.is_committed ≡ true) × (i.permissions ≡ read_write)
reported-some i e = elim (Bool-cases i.is_committed) [
  | inl c ↦ (c, ground (arith, c, e))
  | inr c ↦ absurd (ground (arith, c, e))
]

-- What a query for the basic information of an address says of committed memory.
pub record SaysCommitted (q : QueryReply) : Type 0 where
  pub succeeded : q.status ≡ status_success
  pub info : BasicInformation
  pub told : q.information ≡ some (basic info)
  pub state : info.state ≡ mem_commit
  pub protect : info.protect ≡ page_readwrite

module _ (m : ReservedRegionMap) (base_address bytes allocation_type protection : ℕ) where
  abbrev pub reply : AllocateReply
  reply =
      handle_nt_allocate_virtual_memory_ex m current_process base_address bytes allocation_type
        protection

  abbrev pub pages : ℕ
  pages = page_align_up bytes

  abbrev base : ℕ
  base = if base_address == 0 then find_free_allocation_base m pages 0 else base_address

  -- A call that reserves and commits, and succeeds, has got to the allocation.
  reached :
      has_bit mem_reserve allocation_type ≡ true
      → has_bit mem_commit allocation_type ≡ true
      → reply.status ≡ ok status_success
      → (p : Permission) × (map_nt_to_emulator_protection protection ≡ ok p)
        × (reply ≡ reserve_or_commit m base pages p true true)
  unfolding handle_nt_allocate_virtual_memory_ex
  reached r c e =
      let never : thrown ≢ ok status_success = λ f. ok≢thrown (sym f) in
      let (p, known, first) =
        mapped_success (map_nt_to_emulator_protection protection) _ _ never e in
      let e₁ = ap (λ (q : AllocateReply). q.status) (sym first) ∙ e in
      let second = if_success (base == 0) _ _ no_success e₁ in
      let e₂ = ap (λ (q : AllocateReply). q.status) (sym second) ∙ e₁ in
      let reserve = has_bit mem_reserve allocation_type in
      let commit = has_bit mem_commit allocation_type in
      let third =
        if_success (not (other_types allocation_type == 0) || (not commit && not reserve)) _
          (reserve_or_commit m base pages p reserve commit) never e₂ in
      (
        p,
        known,
        first
            ∙ second
            ∙ third
            ∙ ap (λ b. reserve_or_commit m base pages p b commit) r
            ∙ ap (reserve_or_commit m base pages p true) c,
      )

  -- The memory of a reply is fresh, and mapped with `p`.
  abbrev IsFresh : Permission → AllocateReply → Type 0
  IsFresh p q =
      q.status ≡ ok status_success
      → q.base_address + pages ≤ top
      → Allocated m q.base_address (q.base_address + pages) (some read_write) (some p)
          (record { value = true; regions = q.regions; calls = q.calls })

  allocation-IsFresh :
      (p : Permission)
      → IsValid m
      → 0 < pages
      → IsFresh p (reserve_or_commit m base pages p true true)
  unfolding reserve_or_commit
  allocation-IsFresh p v n e k = elim (allocate_memory_cases m base pages p false v k n) [
    | inl h ↦ absurd (false≢true (sym h.failed ∙ value_success _ e))
    | inr h ↦ record {
      succeeded = refl;
      valid = h.valid;
      free = h.free;
      reserved = h.reserved;
      mapped = h.mapped;
      mirrored = h.mirrored;
    }
  ]

  -- Where the guest reserves and commits memory in a valid map, and the call succeeds, with a range that is not empty
  -- and does not pass the top of the address space, no address of the range was reserved before, no other address changes, and a query at
  -- any address of the range, for the basic information and with the right size, tells the guest that it is committed, and
  -- PAGE_READWRITE, whatever protection was asked for.
  pub allocate-query :
      (modules : Dict MappedModule) (x : ℕ) (has_return_length : Bool)
      → IsValid m
      → has_bit mem_reserve allocation_type ≡ true
      → has_bit mem_commit allocation_type ≡ true
      → reply.status ≡ ok status_success
      → reply.base_address + pages ≤ top
      → 0 < pages
      → (in_range reply.base_address (reply.base_address + pages) x ≡ true
          → (is_reserved m x ≡ false)
            × SaysCommitted (
                handle_nt_query_virtual_memory reply.regions modules current_process x basic_class
                  basic_size has_return_length))
        × (in_range reply.base_address (reply.base_address + pages) x ≡ false
            → mapped_at reply.regions x ≡ mapped_at m x)
  unfolding handle_nt_query_virtual_memory query_basic map_emulator_to_nt_protection
  allocate-query modules x has_return_length v r c e k n =
      let (p, known, same) = reached r c e in
      let h = subst (IsFresh p) (sym same) (allocation-IsFresh p v n) e k in
      let report = (get_region_info-reported reply.regions x h.valid).1 in
      (
        λ inside.
            let told =
              reported-some (get_region_info reply.regions x)
                (report ∙ h.mapped x ∙ rw inside refl) in
            (
              h.free x inside,
              record {
                succeeded = refl;
                info = basic_information (get_region_info reply.regions x);
                told = refl;
                state = rw told.0 refl;
                protect = rw told.1 refl;
              },
            ),
        λ outside. h.mapped x ∙ rw outside refl,
      )
