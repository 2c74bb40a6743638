-- ===== src/Memory/Reserved.antt =====
-- src/emulator/memory_manager.hpp and memory_manager.cpp: the reserved regions, the calls of the backend, and the
-- searches in the reserved regions.
pub mod Valid
pub mod Range
use emulator_momo.Common.{
  ℕ, Bool, false, ◌||◌, Option, none, some, List, [], ◌∷◌, Dict, leb, if◌then◌else◌, add64,
}
use emulator_momo.Memory.Address.{regions_with_length_intersect}
use emulator_momo.Memory.Spans.{last_le}
use emulator_momo.Memory.Region.{Permission, CommittedRegionMap}

abbrev pub min_allocation_address : ℕ
min_allocation_address = 0x10000

abbrev pub max_allocation_address : ℕ
max_allocation_address = 0x7ffffffeffff

-- `reserved_region`
pub record ReservedRegion : Type 0 where
  pub length : ℕ
  pub committed : CommittedRegionMap
  pub is_mmio : Bool

abbrev pub ReservedRegionMap : Type 0
ReservedRegionMap = Dict ReservedRegion

-- The virtual functions `map_mmio`, `map_memory`, `unmap_memory` and `apply_memory_protection`.
pub data BackendCall : Type 0 where
  map_mmio : ℕ → ℕ → BackendCall
  map_memory : ℕ → ℕ → Permission → BackendCall
  unmap_memory : ℕ → ℕ → BackendCall
  apply_protection : ℕ → ℕ → Permission → BackendCall

-- What an operation leaves: its value, the reserved regions, and the calls made.
pub record Outcome (A : Type 0) : Type 0 where
  pub value : A
  pub regions : ReservedRegionMap
  pub calls : List BackendCall

abbrev pub unchanged : {A : Type 0} → A → ReservedRegionMap → Outcome A
unchanged value m = record { value = value; regions = m; calls = [] }

unfoldable pub find_reserved_region : ReservedRegionMap → ℕ → Option (ℕ × ReservedRegion)
find_reserved_region m address = elim (last_le (λ r. r.length) address m) [
  | none ↦ none
  | some e ↦ if leb (add64 e.0 e.1.length) address then none else some e
]

unfoldable pub overlaps_reserved_region : ReservedRegionMap → ℕ → ℕ → Bool
overlaps_reserved_region [] address size = false
overlaps_reserved_region ((start, r) ∷ m) address size =
    regions_with_length_intersect address size start r.length
    || overlaps_reserved_region m address size
