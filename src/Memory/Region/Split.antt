-- ===== src/Memory/Region/Split.antt =====
-- src/emulator/memory_manager.cpp: `split_regions`, its rounds and its effect.
use emulator_momo.Common.{
  ◌∙◌, ℕ, zero, suc, ◌+◌, ◌≤◌, ◌<◌, ◌≡◌, refl, false, List, [], ◌∷◌, arith, length, u64_mod, All,
}
use emulator_momo.Memory.Region.{
  CommittedRegion, CommittedRegionMap, split_at, split_loop, split_regions, committed_at, inside,
  straddled,
}
use emulator_momo.Memory.Region.Merge.{Regions}
use emulator_momo.Memory.Region.Cut.{cons-same, split_at-Keeps, split_at-clear}
use emulator_momo.Memory.Region.Rounds.{cuts, cuts-le, split_at-measure, Elem-self}

-- What the split of a map by `points` promises.
pub record IsSplit (lo hi : ℕ) (points : List ℕ) (m m' : CommittedRegionMap) : Type 0 where
  pub regions : Regions lo hi m'
  pub same : (x : ℕ) → committed_at m' x ≡ committed_at m x
  pub clear : All (λ p. straddled p m' ≡ false) points

cons-clear :
    (a : ℕ) (r : CommittedRegion) (m : CommittedRegionMap) (points : List ℕ)
    → All (λ p. inside p a r ≡ false) points
    → All (λ p. straddled p m ≡ false) points
    → All (λ p. straddled p ((a, r) ∷ m) ≡ false) points
unfolding straddled
cons-clear a r m [] h t = tt
cons-clear a r m (p ∷ ps) h t = (rw (h.0, t.0), cons-clear a r m ps h.1 t.1)

nil-clear : (points : List ℕ) → All (λ p. straddled p [] ≡ false) points
unfolding straddled
nil-clear [] = tt
nil-clear (p ∷ ps) = (refl, nil-clear ps)

cuts-cons :
    (a : ℕ) (r : CommittedRegion) (m : CommittedRegionMap) (ps : List ℕ)
    → cuts ps m ≤ cuts ps ((a, r) ∷ m)
unfolding cuts straddled
cuts-cons a r m [] = omega arith
cuts-cons a r m (p ∷ ps) = ground (arith, cuts-cons a r m ps)

-- Enough rounds: one for each entry, and one for each split point that still cuts.
split_loop-IsSplit :
    (fuel lo hi : ℕ) (points : List ℕ) (m : CommittedRegionMap)
    → hi < u64_mod
    → Regions lo hi m
    → length m + cuts points m ≤ fuel
    → IsSplit lo hi points m (split_loop fuel points m)
unfolding split_loop
split_loop-IsSplit zero lo hi points [] h w n = record {
  regions = w;
  same = λ x. refl;
  clear = nil-clear points;
}
split_loop-IsSplit zero lo hi points (e ∷ m) h w n = absurd (omega arith)
split_loop-IsSplit (suc fuel) lo hi points [] h w n = record {
  regions = w;
  same = λ x. refl;
  clear = nil-clear points;
}
split_loop-IsSplit (suc fuel) lo hi points ((a, r) ∷ m) h w n =
    let q = split_at a points r m in
    let w' : Regions a hi ((a, r) ∷ m) = (omega arith, w.1, w.2) in
    let k = split_at-Keeps a hi points r m h w' in
    let c = split_at-clear a hi points r m h w' in
    let n' = split_at-measure a hi points points r m h w' (Elem-self points) in
    let s =
      split_loop-IsSplit fuel (a + q.0.length) hi points q.1 h k.spans.2
        (omega (arith, cuts-cons a q.0 q.1 points)) in
    record {
      regions = (w.0, k.spans.1, s.regions);
      same = λ x. cons-same a q.0 q.1 (split_loop fuel points q.1) x (s.same x) ∙ k.same x;
      clear = cons-clear a q.0 (split_loop fuel points q.1) points c s.clear;
    }

-- Splitting a map whose regions are in order and do not meet keeps them so, keeps every committed
-- address as it was and leaves no region across a split point.
pub split_regions-IsSplit :
    (lo hi : ℕ) (points : List ℕ) (m : CommittedRegionMap)
    → hi < u64_mod
    → Regions lo hi m
    → IsSplit lo hi points m (split_regions m points)
unfolding split_regions
split_regions-IsSplit lo hi points m h w =
    split_loop-IsSplit (length m + length points) lo hi points m h w
      (omega (arith, cuts-le points m))
