-- ===== src/Memory/Manager/Steps.antt =====
-- src/emulator/memory_manager.cpp: sequences of operations, and the invariant of the regions and of the backend.
use emulator_momo.Common.{
  ℕ, ◌+◌, ◌≤◌, ◌<◌, ◌≡◌, Bool, true, false, Option, none, some, List, [], ◌∷◌, arith, ok,
}
use emulator_momo.Memory.Region.{Permission}
use emulator_momo.Memory.Reserved.{
  ReservedRegionMap, BackendCall, map_mmio, map_memory, unmap_memory, apply_protection, Outcome,
}
use emulator_momo.Memory.Reserved.Valid.{top, IsValid, mapped_at, effect, replay}
use emulator_momo.Memory.Manager.{
  protect_memory, commit_memory, decommit_memory, release_memory, allocate_memory, allocate_mmio,
}

unfoldable pub is_mapped : Option Permission → Bool
is_mapped none = false
is_mapped (some p) = true

-- The reserved regions, and what the backend has mapped at each address.
pub record Machine : Type 0 where
  pub regions : ReservedRegionMap
  pub backend : ℕ → Option Permission

abbrev pub after : {A : Type 0} → Machine → Outcome A → Machine
after s o = record { regions = o.regions; backend = λ x. replay o.calls x (s.backend x) }

-- One operation of the memory manager that ends without an exception. A range does not pass the top of
-- the address space, and one that is committed or allocated is not empty.
pub data Step : Machine → Machine → Type 0 where
  protecting :
      (s : Machine) (address size : ℕ) (p : Permission) (o : Outcome (Bool × Option Permission))
      → protect_memory s.regions address size p ≡ ok o
      → address + size ≤ top
      → Step s (after s o)
  committing :
      (s : Machine) (address size : ℕ) (p : Permission) (o : Outcome Bool)
      → commit_memory s.regions address size p ≡ ok o
      → address + size ≤ top
      → 0 < size
      → Step s (after s o)
  decommitting :
      (s : Machine) (address size : ℕ) (o : Outcome Bool)
      → decommit_memory s.regions address size ≡ ok o
      → address + size ≤ top
      → Step s (after s o)
  releasing :
      (s : Machine) (address size : ℕ) (o : Outcome Bool)
      → release_memory s.regions address size ≡ ok o
      → Step s (after s o)
  allocating :
      (s : Machine) (address size : ℕ) (p : Permission) (reserve_only : Bool)
      → address + size ≤ top
      → 0 < size
      → Step s (after s (allocate_memory s.regions address size p reserve_only))
  allocating_mmio :
      (s : Machine) (address size : ℕ)
      → address + size ≤ top
      → 0 < size
      → Step s (after s (allocate_mmio s.regions address size))

pub data Run : Machine → Machine → Type 0 where
  done : (s : Machine) → Run s s
  more : (s t u : Machine) → Step s t → Run t u → Run s u

-- The regions are valid, and the backend has mapped the addresses that they say are mapped.
pub record IsInStep (s : Machine) : Type 0 where
  pub valid : IsValid s.regions
  pub mirrored : (x : ℕ) → is_mapped (s.backend x) ≡ is_mapped (mapped_at s.regions x)

-- Whether an address is mapped after a call depends on whether it was mapped before only.
is_mapped-effect :
    (c : BackendCall) (x : ℕ) (o o' : Option Permission)
    → is_mapped o ≡ is_mapped o'
    → is_mapped (effect c x o) ≡ is_mapped (effect c x o')
unfolding effect is_mapped
is_mapped-effect (map_mmio a n) x o o' e = ground (arith, e)
is_mapped-effect (map_memory a n p) x o o' e = ground (arith, e)
is_mapped-effect (unmap_memory a n) x o o' e = ground (arith, e)
is_mapped-effect (apply_protection a n p) x none none e = ground arith
is_mapped-effect (apply_protection a n p) x none (some _) e = absurd (cc e)
is_mapped-effect (apply_protection a n p) x (some _) none e = absurd (cc e)
is_mapped-effect (apply_protection a n p) x (some _) (some _) e = ground arith

pub is_mapped-replay :
    (cs : List BackendCall) (x : ℕ) (o o' : Option Permission)
    → is_mapped o ≡ is_mapped o'
    → is_mapped (replay cs x o) ≡ is_mapped (replay cs x o')
unfolding replay
is_mapped-replay [] x o o' e = e
is_mapped-replay (c ∷ cs) x o o' e =
    is_mapped-replay cs x (effect c x o) (effect c x o') (is_mapped-effect c x o o' e)
