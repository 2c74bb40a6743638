-- ===== src/Memory/Manager/Decommit.antt =====
-- src/emulator/memory_manager.cpp: what `decommit_memory` unmaps.
use emulator_momo.Common.{
  ℕ, ◌+◌, ◌<◌, ◌≡◌, refl, Bool, true, false, ◌&&◌, ◌∙◌, sym, inl, inr, Option, none, List, [], ◌∷◌,
  arith, put, leb, if◌then◌else◌, add64, add64-eq, u64_mod, Bool-cases, ok, Returns,
}
use emulator_momo.Memory.Spans.{Spans-le, Spans-mono}
use emulator_momo.Memory.Region.{
  Permission, CommittedRegion, CommittedRegionMap, committed_at, straddled, split_regions,
}
use emulator_momo.Memory.Region.Merge.{committed_at-below, Regions}
use emulator_momo.Memory.Reserved.{ReservedRegion, ReservedRegionMap, BackendCall, Outcome}
use emulator_momo.Memory.Manager.{unmap_loop, decommit_memory}
use emulator_momo.Memory.Reserved.Valid.{
  IsValid, mapped_at, effect, replay, write_back-IsValid, mapped_at-range, in_range,
}
use emulator_momo.Memory.Reserved.Range.{
  Targets, entry, below_mod, end_eq, entry_end_eq, is_split, mapped-pieces,
}

-- The loop over regions that the range does not cut.
module _ (address end : ℕ) where
  pub unmap_loop-Regions :
      (lo hi : ℕ) (m : CommittedRegionMap)
      → Regions lo hi m
      → Regions lo hi (unmap_loop address end m).0
  unfolding unmap_loop
  unmap_loop-Regions lo hi [] w = w
  unmap_loop-Regions lo hi ((a, r) ∷ m) w =
      let rest = unmap_loop address end m in
      let k : Regions (a + r.length) hi rest.0 = unmap_loop-Regions (a + r.length) hi m w.2 in
      elim (Bool-cases (leb end a)) [
        | inl e ↦ rw (e, unmap_loop) w
        | inr e ↦ elim (Bool-cases (leb address a && leb (add64 a r.length) end)) [
          | inl d ↦
              rw (e, d, unmap_loop)
                (Spans-mono (λ (r : CommittedRegion). r.length) lo (a + r.length) hi rest.0
                  (omega arith) k)
          | inr d ↦ rw (e, d, unmap_loop) (w.0, w.1, k)
        ]
      ]

  pub unmap_loop-at :
      (lo hi : ℕ) (m : CommittedRegionMap) (x : ℕ)
      → Regions lo hi m
      → hi < u64_mod
      → straddled address m ≡ false
      → straddled end m ≡ false
      → committed_at (unmap_loop address end m).0 x
        ≡ (if in_range address end x then none else committed_at m x)
  unfolding unmap_loop committed_at straddled
  unmap_loop-at lo hi [] x w h s t = ground arith
  unmap_loop-at lo hi ((a, r) ∷ m) x w h s t = ground (
    arith,
    unmap_loop-at (a + r.length) hi m x w.2,
    Spans-le (λ (r : CommittedRegion). r.length) (a + r.length) hi m w.2,
    add64-eq a r.length,
    committed_at-below x (a + r.length) hi m w.2,
  )

  unmap_loop-replay_nothing :
      (m : CommittedRegionMap) (x : ℕ) → replay (unmap_loop address end m).1 x none ≡ none
  unfolding unmap_loop replay effect
  unmap_loop-replay_nothing [] x = refl
  unmap_loop-replay_nothing ((a, r) ∷ m) x = ground (arith, unmap_loop-replay_nothing m x)

  pub unmap_loop-replay :
      (lo hi : ℕ) (m : CommittedRegionMap) (x : ℕ) (o : Option Permission)
      → Regions lo hi m
      → hi < u64_mod
      → straddled address m ≡ false
      → straddled end m ≡ false
      → (in_range address end x ≡ true → o ≡ committed_at m x)
      → replay (unmap_loop address end m).1 x o ≡ (if in_range address end x then none else o)
  unfolding unmap_loop committed_at straddled replay effect
  unmap_loop-replay lo hi [] x o w h s t e = ground arith
  unmap_loop-replay lo hi ((a, r) ∷ m) x o w h s t e =
      let le = Spans-le (λ (r : CommittedRegion). r.length) (a + r.length) hi m w.2 in
      rw (add64-eq a r.length (omega arith)) (
        ground (
          arith,
          unmap_loop-replay_nothing m x,
          committed_at-below x (a + r.length) hi m w.2,
          unmap_loop-replay (a + r.length) hi m x o w.2,
        ))

-- What `decommit_memory` promises for the range [address, end) of a valid map `m`.
pub record Decommitted (m : ReservedRegionMap) (address end : ℕ) (o : Outcome Bool) : Type 0 where
  pub succeeded : o.value ≡ true
  pub valid : IsValid o.regions
  pub mapped :
      (x : ℕ) → mapped_at o.regions x ≡ (if in_range address end x then none else mapped_at m x)
  pub mirrored : (x : ℕ) → replay o.calls x (mapped_at m x) ≡ mapped_at o.regions x

module _ (m : ReservedRegionMap) (address size a : ℕ) (r : ReservedRegion)
    (t : Targets m address size a r) where
  abbrev end : ℕ
  end = address + size

  abbrev pieces : CommittedRegionMap
  pieces = split_regions r.committed (address ∷ end ∷ [])

  abbrev looped : CommittedRegionMap × List BackendCall
  looped = unmap_loop address end pieces

  abbrev result : Outcome Bool
  result = record {
    value = true;
    regions = put a (record r { committed = looped.0 }) m;
    calls = looped.1;
  }

  looped-Regions : Regions a (a + r.length) looped.0
  looped-Regions = unmap_loop-Regions address end a (a + r.length) pieces (is_split t).regions

  looped-at :
      (x : ℕ)
      → committed_at looped.0 x
        ≡ (if in_range address end x then none else committed_at r.committed x)
  looped-at x =
      let s = is_split t in
      unmap_loop-at address end a (a + r.length) pieces x s.regions (below_mod t) s.clear.0
        s.clear.1.0
      ∙ rw (s.same x)

  result-mapped :
      (x : ℕ)
      → mapped_at result.regions x ≡ (if in_range address end x then none else mapped_at m x)
  result-mapped =
      mapped_at-range m address end a r looped.0 (λ _. none) t.valid (entry t) t.fits looped-Regions
        looped-at

  result-mirrored : (x : ℕ) → replay result.calls x (mapped_at m x) ≡ mapped_at result.regions x
  result-mirrored x =
      let s = is_split t in
      let here : in_range address end x ≡ true → mapped_at m x ≡ committed_at pieces x =
        λ e. mapped-pieces t x (ground arith) (ground arith) in
      unmap_loop-replay address end a (a + r.length) pieces x (mapped_at m x) s.regions
        (below_mod t) s.clear.0 s.clear.1.0 here
      ∙ sym (result-mapped x)

  decommit_memory_run : r.is_mmio ≡ false → decommit_memory m address size ≡ ok result
  unfolding decommit_memory
  decommit_memory_run plain =
      rw (t.found, decommit_memory, end_eq t, entry_end_eq t) (ground (arith, t.fits, plain))

-- A decommit inside one reserved region of a valid map that is no MMIO region succeeds and unmaps exactly the range, in the
-- map and in the backend.
pub decommit_memory-Decommitted :
    (m : ReservedRegionMap) (address size a : ℕ) (r : ReservedRegion)
    → Targets m address size a r
    → r.is_mmio ≡ false
    → Returns (decommit_memory m address size) (Decommitted m address (address + size))
decommit_memory-Decommitted m address size a r t plain = (
  result m address size a r t,
  decommit_memory_run m address size a r t plain,
  record {
    succeeded = refl;
    valid =
        write_back-IsValid m t.valid a r (entry t).stored _ (looped-Regions m address size a r t);
    mapped = result-mapped m address size a r t;
    mirrored = result-mirrored m address size a r t;
  },
)
