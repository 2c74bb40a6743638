-- ===== src/Memory/Manager/Commit.antt =====
-- src/emulator/memory_manager.cpp: what `commit_memory` maps and records.
use emulator_momo.Common.{
  ℕ, ◌+◌, ◌<◌, ◌≡◌, refl, Bool, true, ◌∙◌, sym, Option, none, some, [], ◌∷◌, arith, put,
  if◌then◌else◌, ok, Returns,
}
use emulator_momo.Memory.Region.{
  Permission, CommittedRegionMap, committed_at, split_regions, merge_regions,
}
use emulator_momo.Memory.Region.Merge.{
  committed_at-below, Regions, merge_regions-Regions, merge_regions-committed_at,
}
use emulator_momo.Memory.Reserved.{ReservedRegion, ReservedRegionMap}
use emulator_momo.Memory.Manager.{CommitState, commit_start}
use emulator_momo.Memory.Reserved.Valid.{
  in_range, IsValid, mapped_at, replay, write_back-IsValid, mapped_at-range, in_range,
}
use emulator_momo.Memory.Manager.{commit_memory}
use emulator_momo.Memory.Reserved.{Outcome}
use emulator_momo.Memory.Manager.Fill.{fill, fill_calls, fill-Regions, fill-at, fill_calls-replay}
use emulator_momo.Memory.Reserved.Range.{
  Targets, entry, below_mod, end_eq, entry_end_eq, is_split, mapped-pieces,
}
use emulator_momo.Memory.Manager.CommitLoop.{finish-fill, Finishes}

-- An address that nothing is committed at takes the permission `p`; any other keeps its own.
abbrev pub or_permit : Permission → Option Permission → Option Permission
or_permit p none = some p
or_permit p (some c) = some c

-- What `commit_memory` promises for the range [address, end) of a valid map `m`.
pub record Committed (m : ReservedRegionMap) (address end : ℕ) (p : Permission) (o : Outcome Bool)
    : Type 0 where
  pub succeeded : o.value ≡ true
  pub valid : IsValid o.regions
  pub mapped :
      (x : ℕ)
      → mapped_at o.regions x
        ≡ (if in_range address end x then or_permit p (mapped_at m x) else mapped_at m x)
  pub mirrored : (x : ℕ) → replay o.calls x (mapped_at m x) ≡ mapped_at o.regions x

module _ (m : ReservedRegionMap) (address size a : ℕ) (r : ReservedRegion) (p : Permission)
    (t : Targets m address size a r) (some_size : 0 < size) where
  abbrev end : ℕ
  end = address + size

  abbrev pieces : CommittedRegionMap
  pieces = split_regions r.committed (address ∷ end ∷ [])

  abbrev start_state : CommitState
  start_state = record { last = none; regions = pieces; calls = [] }

  abbrev filled : CommittedRegionMap
  filled = fill address end p a pieces

  abbrev result : Outcome Bool
  result = record {
    value = true;
    regions = put a (record r { committed = merge_regions filled }) m;
    calls = fill_calls address end p a pieces;
  }

  finished : Finishes address end p a [] pieces start_state
  unfolding commit_start
  finished =
      let s = is_split t in
      let e = entry t in
      finish-fill address end p a (a + r.length) a [] pieces start_state (below_mod t) refl
        (omega arith) s.regions (omega (arith, e.from)) (omega arith) t.fits s.clear.0 s.clear.1.0

  filled-Regions : Regions a (a + r.length) filled
  filled-Regions = fill-Regions address end p a (a + r.length) pieces (is_split t).regions t.fits

  merged-at :
      (x : ℕ)
      → committed_at (merge_regions filled) x ≡ (
          if in_range address end x
          then or_permit p (committed_at r.committed x)
          else committed_at r.committed x)
  merged-at x =
      let s = is_split t in
      let e = entry t in
      merge_regions-committed_at a (a + r.length) filled x (below_mod t) filled-Regions
      ∙ ground (
        arith,
        e.from,
        s.same x,
        fill-at address end p a (a + r.length) x pieces s.regions t.fits,
        committed_at-below x a (a + r.length) filled filled-Regions,
        committed_at-below x a (a + r.length) pieces s.regions,
      )

  result-mapped :
      (x : ℕ)
      → mapped_at result.regions x
        ≡ (if in_range address end x then or_permit p (mapped_at m x) else mapped_at m x)
  result-mapped =
      mapped_at-range m address end a r (merge_regions filled) (or_permit p) t.valid (entry t)
        t.fits (merge_regions-Regions a (a + r.length) filled (below_mod t) filled-Regions)
        merged-at

  result-mirrored : (x : ℕ) → replay result.calls x (mapped_at m x) ≡ mapped_at result.regions x
  result-mirrored x =
      let s = is_split t in
      let e = entry t in
      fill_calls-replay address end p a (a + r.length) x pieces (mapped_at m x) s.regions
      ∙ ground (arith, e.from, mapped-pieces t x)
      ∙ sym (result-mapped x)

  commit_memory_run : commit_memory m address size p ≡ ok result
  unfolding commit_memory
  commit_memory_run =
      rw (t.found, commit_memory, end_eq t, entry_end_eq t, finished.0, finished.1)
        (ground (arith, t.fits))

-- A commit of a range that is not empty, inside one reserved region of a valid map, succeeds and
-- leaves the whole range mapped: what was committed keeps its
-- permission, the gaps take the new one, nothing else changes, the map stays valid, and the backend is kept in
-- step.
pub commit_memory-Committed :
    (m : ReservedRegionMap) (address size a : ℕ) (r : ReservedRegion) (p : Permission)
    → Targets m address size a r
    → 0 < size
    → Returns (commit_memory m address size p) (Committed m address (address + size) p)
commit_memory-Committed m address size a r p t n = (
  result m address size a r p t n,
  commit_memory_run m address size a r p t n,
  record {
    succeeded = refl;
    valid = write_back-IsValid m t.valid a r (entry t).stored _ (
        merge_regions-Regions a (a + r.length) _ (below_mod t)
          (filled-Regions m address size a r p t n));
    mapped = result-mapped m address size a r p t n;
    mirrored = result-mirrored m address size a r p t n;
  },
)
