-- ===== src/Memory/Reserved/Range.antt =====
-- src/emulator/memory_manager.cpp: what `protect_memory`, `commit_memory` and `decommit_memory` share: the entry
-- they find, the end of the range, and the split at both ends of it.
use emulator_momo.Common.{
  ℕ, ◌+◌, ◌≤◌, ◌<◌, ◌≡◌, ◌∙◌, sym, some, [], ◌∷◌, arith, add64, add64-eq, u64_mod,
}
use emulator_momo.Memory.Region.{CommittedRegionMap, committed_at, split_regions}
use emulator_momo.Memory.Region.Split.{IsSplit, split_regions-IsSplit}
use emulator_momo.Memory.Reserved.{ReservedRegion, ReservedRegionMap, find_reserved_region}
use emulator_momo.Memory.Reserved.Valid.{IsValid, mapped_at, Found, find-Found}

abbrev pub entry_end : ℕ → ReservedRegion → ℕ
entry_end a r = a + r.length

-- The range [address, address + size) lies in the entry `r` at `a` of a valid map.
pub record Targets (m : ReservedRegionMap) (address size a : ℕ) (r : ReservedRegion) : Type 0 where
  pub valid : IsValid m
  pub found : find_reserved_region m address ≡ some (a, r)
  pub fits : address + size ≤ a + r.length

module _ {m : ReservedRegionMap} {address size a : ℕ} {r : ReservedRegion}
    (t : Targets m address size a r) where
  pub entry : Found m address a r
  entry = find-Found m address a r t.valid t.found

  pub below_mod : a + r.length < u64_mod
  below_mod = omega (arith, entry.below_top)

  pub end_eq : add64 address size ≡ address + size
  end_eq = add64-eq address size (omega (arith, below_mod, t.fits))

  pub entry_end_eq : add64 a r.length ≡ a + r.length
  entry_end_eq = add64-eq a r.length below_mod

  abbrev pub pieces : CommittedRegionMap
  pieces = split_regions r.committed (address ∷ (address + size) ∷ [])

  pub is_split :
      IsSplit a
        (a + r.length)
        (address ∷ (address + size) ∷ [])
        r.committed
        (split_regions r.committed (address ∷ (address + size) ∷ []))
  is_split = split_regions-IsSplit a (a + r.length) _ r.committed below_mod entry.inside

  pub mapped-pieces :
      (x : ℕ)
      → address ≤ x
      → x < address + size
      → mapped_at m x ≡ committed_at (split_regions r.committed (address ∷ (address + size) ∷ [])) x
  mapped-pieces x p q =
      entry.mapped x (omega (arith, entry.from)) (omega (arith, t.fits)) ∙ sym (is_split.same x)
