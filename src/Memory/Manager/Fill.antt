-- ===== src/Memory/Manager/Fill.antt =====
-- src/emulator/memory_manager.cpp: the loop of `commit_memory`, reduced to a function of the region map alone:
-- every gap of the range gets a region, and the regions that are there stay.
use emulator_momo.Common.{
  ℕ, ◌+◌, ◌-◌, ◌≤◌, ◌<◌, ◌≡◌, ◌&&◌, inl, inr, Option, none, some, List, [], ◌∷◌, ◌++◌, arith, ltb,
  leb, if◌then◌else◌, max, Bool-cases,
}
use mathlib.Core.List.{append-nil}
use emulator_momo.Memory.Spans.{Spans-le}
use emulator_momo.Memory.Region.{Permission, CommittedRegion, CommittedRegionMap, committed_at}
use emulator_momo.Memory.Region.Merge.{committed_at-below, Regions}
use emulator_momo.Memory.Reserved.{BackendCall, map_memory}
use emulator_momo.Memory.Reserved.Valid.{in_range, effect, replay, in_range}

pub add_sub : (a b : ℕ) → a < b → a + (b - a) ≡ b
add_sub a b h = omega arith

module _ (address end : ℕ) (p : Permission) where
  unfoldable pub gap : ℕ → ℕ → CommittedRegionMap
  gap from until =
      if ltb from until then (from, record { length = until - from; permissions = p }) ∷ [] else []

  unfoldable pub gap_calls : ℕ → ℕ → List BackendCall
  gap_calls from until = if ltb from until then map_memory from (until - from) p ∷ [] else []

  -- `cur` is the end of the region visited last.
  unfoldable pub fill : ℕ → CommittedRegionMap → CommittedRegionMap
  fill cur [] = gap (max address cur) end
  fill cur ((a, r) ∷ m) =
      let stop = gap (max address cur) end ++ (a, r) ∷ m in
      let inner = gap (max address cur) a ++ (a, r) ∷ fill (a + r.length) m in
      let outer = (a, r) ∷ fill (a + r.length) m in
      if leb end a then stop else if leb address a then inner else outer

  unfoldable pub fill_calls : ℕ → CommittedRegionMap → List BackendCall
  fill_calls cur [] = gap_calls (max address cur) end
  fill_calls cur ((a, r) ∷ m) =
      let inner = gap_calls (max address cur) a ++ fill_calls (a + r.length) m in
      let outer = fill_calls (a + r.length) m in
      if leb end a then gap_calls (max address cur) end else if leb address a then inner else outer

  pub gap-Regions :
      (from until lo hi : ℕ) (m : CommittedRegionMap)
      → lo ≤ from
      → until ≤ hi
      → Regions lo hi m
      → (from < until → Regions until hi m)
      → Regions lo hi (gap from until ++ m)
  unfolding gap
  gap-Regions from until lo hi m h k w u = elim (Bool-cases (ltb from until)) [
    | inr e ↦ rw e w
    | inl e ↦ rw e (h, ground arith, rw (add_sub from until (ground arith)) (u (ground arith)))
  ]

  gap-at :
      (from until x : ℕ) (m : CommittedRegionMap)
      → committed_at (gap from until ++ m) x
        ≡ (if in_range from until x then some p else committed_at m x)
  unfolding gap committed_at
  gap-at from until x m = elim (Bool-cases (ltb from until)) [
    | inr e ↦ rw e (ground arith)
    | inl e ↦ rw e (ground arith)
  ]

  gap_calls-replay :
      (from until x : ℕ) (cs : List BackendCall) (o : Option Permission)
      → replay (gap_calls from until ++ cs) x o
        ≡ replay cs x (if in_range from until x then some p else o)
  unfolding gap_calls replay effect
  gap_calls-replay from until x cs o = elim (Bool-cases (ltb from until)) [
    | inr e ↦ rw e (ground arith)
    | inl e ↦ rw e (ground arith)
  ]

  pub fill-Regions :
      (cur hi : ℕ) (m : CommittedRegionMap)
      → Regions cur hi m
      → end ≤ hi
      → Regions cur hi (fill cur m)
  unfolding fill
  fill-Regions cur hi [] w h =
      rw (← append-nil (gap (max address cur) end))
        (gap-Regions (max address cur) end cur hi [] (omega arith) h w (λ _. h))
  fill-Regions cur hi ((a, r) ∷ m) w h =
      let rest = fill-Regions (a + r.length) hi m w.2 h in
      elim (Bool-cases (leb end a)) [
        | inl e ↦
            rw (e, fill)
              (gap-Regions (max address cur) end cur hi ((a, r) ∷ m) (omega arith) h w
                (λ _. (ground arith, w.1, w.2)))
        | inr e ↦ elim (Bool-cases (leb address a)) [
          | inl d ↦
              rw (e, d, fill)
                (gap-Regions (max address cur) a cur hi ((a, r) ∷ fill (a + r.length) m)
                  (omega arith)
                  (omega
                    (arith, Spans-le (λ (r : CommittedRegion). r.length) (a + r.length) hi m w.2))
                  (w.0, w.1, rest) (λ _. (omega arith, w.1, rest)))
          | inr d ↦ rw (e, d, fill) (w.0, w.1, rest)
        ]
      ]

  -- What the loop leaves at an address: the range is committed throughout, and what was committed
  -- keeps its permission.
  pub fill-at :
      (cur hi x : ℕ) (m : CommittedRegionMap)
      → Regions cur hi m
      → end ≤ hi
      → cur ≤ x
      → committed_at (fill cur m) x ≡ (
          if in_range address end x
          then elim (committed_at m x) [ none ↦ some p | some c ↦ some c ]
          else committed_at m x)
  unfolding fill committed_at
  fill-at cur hi x [] w k h =
      rw (← append-nil (gap (max address cur) end))
        (rw (gap-at (max address cur) end x []) (ground arith))
  fill-at cur hi x ((a, r) ∷ m) w k h =
      let below = committed_at-below x (a + r.length) hi m w.2 in
      let rest = fill-at (a + r.length) hi x m w.2 k in
      let rest_below =
        committed_at-below x (a + r.length) hi (fill (a + r.length) m)
          (fill-Regions (a + r.length) hi m w.2 k) in
      let start = max address cur in
      elim (Bool-cases (leb end a)) [
        | inl e ↦ rw (e, fill) (rw (gap-at start end x ((a, r) ∷ m)) (ground (arith, below)))
        | inr e ↦ elim (Bool-cases (leb address a)) [
          | inl d ↦
              rw (e, d, fill)
                (rw (gap-at start a x ((a, r) ∷ fill (a + r.length) m))
                  (ground (arith, below, rest_below, rest)))
          | inr d ↦ rw (e, d, fill) (ground (arith, below, rest_below, rest))
        ]
      ]

  pub fill_calls-replay :
      (cur hi x : ℕ) (m : CommittedRegionMap) (o : Option Permission)
      → Regions cur hi m
      → replay (fill_calls cur m) x o ≡ (
          if in_range address end x && leb cur x
          then elim (committed_at m x) [ none ↦ some p | some _ ↦ o ]
          else o)
  unfolding fill_calls committed_at replay
  fill_calls-replay cur hi x [] o w =
      rw (← append-nil (gap_calls (max address cur) end))
        (rw (gap_calls-replay (max address cur) end x [] o, replay) (ground arith))
  fill_calls-replay cur hi x ((a, r) ∷ m) o w =
      let below = committed_at-below x (a + r.length) hi m w.2 in
      let start = max address cur in
      elim (Bool-cases (leb end a)) [
        | inl e ↦
            rw (e, fill_calls, ← append-nil (gap_calls start end))
              (rw (gap_calls-replay start end x [] o, replay) (ground (arith, below)))
        | inr e ↦ elim (Bool-cases (leb address a)) [
          | inl d ↦
              rw (e, d, fill_calls)
                (rw (gap_calls-replay start a x (fill_calls (a + r.length) m) o) (
                  ground (
                    arith,
                    below,
                    fill_calls-replay (a + r.length) hi x m o w.2,
                    fill_calls-replay (a + r.length) hi x m (some p) w.2,
                  )))
          | inr d ↦
              rw (e, d, fill_calls)
                (ground (arith, below, fill_calls-replay (a + r.length) hi x m o w.2))
        ]
      ]
