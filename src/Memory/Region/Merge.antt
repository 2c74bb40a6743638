-- ===== src/Memory/Region/Merge.antt =====
-- src/emulator/memory_manager.cpp: `merge_regions` and its effect.
use emulator_momo.Common.{
  ℕ, ◌+◌, ◌≤◌, ◌<◌, ◌≡◌, refl, none, [], ◌∷◌, arith, add64, add64-eq, u64_mod,
}
use emulator_momo.Memory.Spans.{Spans, Spans-le}
use emulator_momo.Memory.Region.{
  CommittedRegion, CommittedRegionMap, merge_from, merge_regions, committed_at,
}

abbrev pub Regions : ℕ → ℕ → CommittedRegionMap → Type 0
Regions = Spans (λ r. r.length)

pub merge_from-committed_at :
    (a hi : ℕ) (r : CommittedRegion) (m : CommittedRegionMap) (x : ℕ)
    → hi < u64_mod
    → Regions a hi ((a, r) ∷ m)
    → committed_at (merge_from a r m) x ≡ committed_at ((a, r) ∷ m) x
unfolding merge_from committed_at
merge_from-committed_at a hi r [] x h s = refl
merge_from-committed_at a hi r ((b, s) ∷ m) x h w = ground (
  arith,
  Spans-le (λ (r : CommittedRegion). r.length) (b + s.length) hi m,
  add64-eq a r.length,
  add64-eq r.length s.length,
  merge_from-committed_at b hi s m x,
  merge_from-committed_at a hi (record r { length = add64 r.length s.length }) m x,
)

pub merge_from-Regions :
    (lo a hi : ℕ) (r : CommittedRegion) (m : CommittedRegionMap)
    → hi < u64_mod
    → Regions lo hi ((a, r) ∷ m)
    → Regions lo hi (merge_from a r m)
unfolding merge_from
merge_from-Regions lo a hi r [] h s = s
merge_from-Regions lo a hi r ((b, s) ∷ m) h w = ground (
  arith,
  Spans-le (λ (r : CommittedRegion). r.length) (b + s.length) hi m,
  add64-eq a r.length,
  add64-eq r.length s.length,
  merge_from-Regions (a + r.length) b hi s m,
  merge_from-Regions lo a hi (record r { length = add64 r.length s.length }) m,
)

pub merge_regions-Regions :
    (lo hi : ℕ) (m : CommittedRegionMap)
    → hi < u64_mod
    → Regions lo hi m
    → Regions lo hi (merge_regions m)
unfolding merge_regions
merge_regions-Regions lo hi [] h w = w
merge_regions-Regions lo hi ((a, r) ∷ m) h w = merge_from-Regions lo a hi r m h w

-- Merging does not change what is committed.
pub merge_regions-committed_at :
    (lo hi : ℕ) (m : CommittedRegionMap) (x : ℕ)
    → hi < u64_mod
    → Regions lo hi m
    → committed_at (merge_regions m) x ≡ committed_at m x
unfolding merge_regions
merge_regions-committed_at lo hi [] x h w = refl
merge_regions-committed_at lo hi ((a, r) ∷ m) x h w =
    merge_from-committed_at a hi r m x h (omega arith, w.1, w.2)

pub committed_at-below :
    (x lo hi : ℕ) (m : CommittedRegionMap) → Regions lo hi m → x < lo → committed_at m x ≡ none
unfolding committed_at
committed_at-below x lo hi [] w h = refl
committed_at-below x lo hi ((a, r) ∷ m) w h =
    ground (arith, committed_at-below x (a + r.length) hi m w.2)

-- Where nothing is committed below `k`, the regions start at `k` or above.
pub Regions-from :
    (lo k hi : ℕ) (m : CommittedRegionMap)
    → Regions lo hi m
    → k ≤ hi
    → ((x : ℕ) → x < k → committed_at m x ≡ none)
    → Regions k hi m
unfolding committed_at
Regions-from lo k hi [] w h none_below = h
Regions-from lo k hi ((a, r) ∷ m) w h none_below = (ground (arith, none_below a), w.1, w.2)
