-- ===== src/Memory/Manager/Errors.antt =====
-- src/emulator/memory_manager.cpp: ranges that the memory manager refuses.
use emulator_momo.Common.{
  ℕ, ◌+◌, ◌≤◌, ◌<◌, ◌≡◌, refl, Bool, true, false, ◌∙◌, none, some, [], arith, if◌then◌else◌, lookup,
  ltb, add64-eq, ok, thrown, lt→ltb, Result,
}
use emulator_momo.Memory.Spans.{containing}
use emulator_momo.Memory.Region.{Permission}
use emulator_momo.Memory.Manager.Release.{released_size}
use emulator_momo.Memory.Reserved.{
  ReservedRegion, ReservedRegionMap, find_reserved_region, Outcome, unchanged,
}
use emulator_momo.Memory.Manager.{decommit_memory}
use emulator_momo.Memory.Reserved.Valid.{
  top, is_reserved, find_reserved_region-containing, reserved_length, IsValid, find-Found,
}
use emulator_momo.Memory.Manager.{protect_memory, commit_memory, release_memory}

not_reserved :
    (m : ReservedRegionMap) (x : ℕ)
    → is_reserved m x ≡ false
    → containing reserved_length x m ≡ none
unfolding is_reserved
not_reserved m x h = ground arith

both {ℓ} : {A : Type ℓ} (b : Bool) → ◌≡◌ {A = Result A} (if b then thrown else thrown) thrown
both true = refl
both false = refl

-- An operation on a range that starts in no reservation fails without a change.
abbrev pub Untouched : {A : Type 0} → A → ReservedRegionMap → Result (Outcome A) → Type 0
Untouched value m o = o ≡ ok (record { value = value; regions = m; calls = [] })

-- In a valid map and for a range that does not pass the top of the address space: a range that
-- starts in no reservation is refused by a result, and one that starts in a
-- reservation and ends behind it by an exception, by each of the three range operations.
pub range_operations_refuse :
    (m : ReservedRegionMap) (address size : ℕ) (p : Permission)
    → IsValid m
    → address + size ≤ top
    → (is_reserved m address ≡ false
        → Untouched (false, none) m (protect_memory m address size p)
          × Untouched false m (commit_memory m address size p)
          × Untouched false m (decommit_memory m address size))
      × ((a : ℕ) (r : ReservedRegion)
          → find_reserved_region m address ≡ some (a, r)
          → a + r.length < address + size
          → (protect_memory m address size p ≡ thrown)
            × (commit_memory m address size p ≡ thrown)
            × (decommit_memory m address size ≡ thrown))
unfolding protect_memory commit_memory decommit_memory
range_operations_refuse m address size p v k = (
  λ free.
      let e : find_reserved_region m address ≡ none =
        find_reserved_region-containing m address v ∙ not_reserved m address free in
      (rw (e, protect_memory), rw (e, commit_memory), rw (e, decommit_memory)),
  λ a r found behind.
      let f = find-Found m address a r v found in
      let e1 = add64-eq address size (omega arith) in
      let e2 = add64-eq a r.length (omega (arith, f.below_top)) in
      let past = lt→ltb (a + r.length) (address + size) behind in
      (
        rw (found, protect_memory, e1, e2, past),
        rw (found, commit_memory, e1, e2, past),
        rw (found, decommit_memory, e1, e2, past) (both r.is_mmio),
      ),
)

pub release_memory_large :
    (m : ReservedRegionMap) (a size₀ : ℕ) (r : ReservedRegion)
    → lookup a m ≡ some r
    → ltb r.length (released_size size₀ r) ≡ true
    → release_memory m a size₀ ≡ thrown
unfolding release_memory
release_memory_large m a size₀ r found past = rw (found, release_memory, past) refl

pub release_memory_absent :
    (m : ReservedRegionMap) (a size₀ : ℕ)
    → lookup a m ≡ none
    → release_memory m a size₀ ≡ ok (unchanged false m)
unfolding release_memory
release_memory_absent m a size₀ absent = rw (absent, release_memory) refl
