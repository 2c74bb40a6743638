-- ===== src/Memory/Manager/Protect.antt =====
-- src/emulator/memory_manager.cpp: what `protect_memory` does to the recorded permissions and to the backend.
use emulator_momo.Common.{
  ℕ, ◌+◌, ◌≤◌, ◌<◌, ◌≡◌, refl, Bool, true, false, ◌∙◌, sym, inl, inr, Option, none, some, List, [],
  ◌∷◌, arith, put, if◌then◌else◌, add64-eq, u64_mod, ap, Bool-cases, Option-cases, ok, Returns,
}
use emulator_momo.Memory.Spans.{Spans-le}
use emulator_momo.Memory.Region.{
  Permission, CommittedRegion, CommittedRegionMap, committed_at, straddled, split_regions,
  merge_regions,
}
use emulator_momo.Memory.Region.Merge.{
  committed_at-below, Regions, merge_regions-Regions, merge_regions-committed_at,
}
use emulator_momo.Memory.Reserved.{ReservedRegion, ReservedRegionMap, BackendCall, Outcome}
use emulator_momo.Memory.Manager.{protect_loop, protect_memory, or_no_access}
use emulator_momo.Memory.Reserved.Valid.{
  IsValid, mapped_at, effect, replay, write_back-IsValid, mapped_at-range, in_range,
}
use emulator_momo.Memory.Reserved.Range.{Targets, entry, below_mod, end_eq, entry_end_eq, is_split}

-- A mapped address takes the permission `p`; one that is not mapped stays so.
abbrev pub repermit : Permission → Option Permission → Option Permission
repermit p none = none
repermit p (some _) = some p

-- The loop over regions that the range does not cut.
module _ (address end : ℕ) (p : Permission) where
  pub protect_loop-Regions :
      (lo hi : ℕ) (m : CommittedRegionMap)
      → Regions lo hi m
      → Regions lo hi (protect_loop address end p m).1
  unfolding protect_loop
  protect_loop-Regions lo hi [] w = w
  protect_loop-Regions lo hi ((a, r) ∷ m) w =
      ground (arith, protect_loop-Regions (a + r.length) hi m w.2)

  protect_loop-at :
      (lo hi : ℕ) (m : CommittedRegionMap) (x : ℕ)
      → Regions lo hi m
      → hi < u64_mod
      → straddled address m ≡ false
      → straddled end m ≡ false
      → committed_at (protect_loop address end p m).1 x
        ≡ (if in_range address end x then repermit p (committed_at m x) else committed_at m x)
  unfolding protect_loop committed_at straddled
  protect_loop-at lo hi [] x w h s t = ground arith
  protect_loop-at lo hi ((a, r) ∷ m) x w h s t = ground (
    arith,
    protect_loop-at (a + r.length) hi m x w.2,
    Spans-le (λ (r : CommittedRegion). r.length) (a + r.length) hi m w.2,
    add64-eq a r.length,
    committed_at-below x (a + r.length) hi m w.2,
  )

  -- The backend calls leave an address alone that is not committed, or is not in the range.
  protect_loop-replay-none :
      (lo hi : ℕ) (m : CommittedRegionMap) (x : ℕ) (o : Option Permission)
      → Regions lo hi m
      → hi < u64_mod
      → committed_at m x ≡ none
      → replay (protect_loop address end p m).2 x o ≡ o
  unfolding protect_loop committed_at replay effect
  protect_loop-replay-none lo hi [] x o w h c = refl
  protect_loop-replay-none lo hi ((a, r) ∷ m) x o w h c =
      ground (arith, protect_loop-replay-none (a + r.length) hi m x o w.2)

  protect_loop-replay_outside :
      (lo hi : ℕ) (m : CommittedRegionMap) (x : ℕ) (o : Option Permission)
      → Regions lo hi m
      → hi < u64_mod
      → in_range address end x ≡ false
      → replay (protect_loop address end p m).2 x o ≡ o
  unfolding protect_loop replay effect
  protect_loop-replay_outside lo hi [] x o w h c = refl
  protect_loop-replay_outside lo hi ((a, r) ∷ m) x o w h c = ground (
    arith,
    protect_loop-replay_outside (a + r.length) hi m x o w.2,
    Spans-le (λ (r : CommittedRegion). r.length) (a + r.length) hi m w.2,
    add64-eq a r.length,
  )

  protect_loop-replay_inside :
      (lo hi : ℕ) (m : CommittedRegionMap) (x : ℕ) (o : Option Permission) (c : Permission)
      → Regions lo hi m
      → hi < u64_mod
      → straddled address m ≡ false
      → straddled end m ≡ false
      → address ≤ x
      → x < end
      → committed_at m x ≡ some c
      → replay (protect_loop address end p m).2 x o ≡ repermit p o
  unfolding protect_loop committed_at straddled replay effect
  protect_loop-replay_inside lo hi [] x o c w h s t u z e = cc
  protect_loop-replay_inside lo hi ((a, r) ∷ m) x o c w h s t u z e =
      let le = Spans-le (λ (r : CommittedRegion). r.length) (a + r.length) hi m w.2 in
      let none_below = committed_at-below x (a + r.length) hi m w.2 in
      rw (add64-eq a r.length (omega arith)) (
        ground (
          arith,
          none_below,
          protect_loop-replay_inside (a + r.length) hi m x o c w.2,
          protect_loop-replay-none (a + r.length) hi m x (repermit p o) w.2,
        ))

-- The reported old permission is that of the first byte.
protect_loop-old :
    (address end : ℕ) (p : Permission) (lo hi : ℕ) (m : CommittedRegionMap) (c : Permission)
    → Regions lo hi m
    → hi < u64_mod
    → straddled address m ≡ false
    → straddled end m ≡ false
    → address < end
    → committed_at m address ≡ some c
    → (protect_loop address end p m).0 ≡ some c
unfolding protect_loop committed_at straddled
protect_loop-old address end p lo hi [] c w h s t lt e = cc
protect_loop-old address end p lo hi ((a, r) ∷ m) c w h s t lt e =
    let le = Spans-le (λ (r : CommittedRegion). r.length) (a + r.length) hi m w.2 in
    rw (add64-eq a r.length (omega arith)) (
      ground (
        arith,
        committed_at-below address (a + r.length) hi m w.2,
        protect_loop-old address end p (a + r.length) hi m c w.2,
      ))

-- What `protect_memory` promises for the range [address, end) of a valid map `m`.
pub record Protected (m : ReservedRegionMap) (address end : ℕ) (p : Permission)
    (o : Outcome (Bool × Option Permission)) : Type 0 where
  pub succeeded : o.value.0 ≡ true
  pub old : (c : Permission) → address < end → mapped_at m address ≡ some c → o.value.1 ≡ some c
  pub valid : IsValid o.regions
  pub mapped :
      (x : ℕ)
      → mapped_at o.regions x
        ≡ (if in_range address end x then repermit p (mapped_at m x) else mapped_at m x)
  pub mirrored : (x : ℕ) → replay o.calls x (mapped_at m x) ≡ mapped_at o.regions x

module _ (m : ReservedRegionMap) (address size a : ℕ) (r : ReservedRegion) (p : Permission)
    (t : Targets m address size a r) where
  abbrev end : ℕ
  end = address + size

  abbrev pieces : CommittedRegionMap
  pieces = split_regions r.committed (address ∷ end ∷ [])

  abbrev looped : Option Permission × CommittedRegionMap × List BackendCall
  looped = protect_loop address end p pieces

  abbrev result : Outcome (Bool × Option Permission)
  result = record {
    value = (true, some (or_no_access looped.0));
    regions = put a (record r { committed = merge_regions looped.1 }) m;
    calls = looped.2;
  }

  looped-Regions : Regions a (a + r.length) looped.1
  looped-Regions = protect_loop-Regions address end p a (a + r.length) pieces (is_split t).regions

  merged-at :
      (x : ℕ)
      → committed_at (merge_regions looped.1) x ≡ (
          if in_range address end x
          then repermit p (committed_at r.committed x)
          else committed_at r.committed x)
  merged-at x =
      merge_regions-committed_at a (a + r.length) looped.1 x (below_mod t) looped-Regions
      ∙ protect_loop-at address end p a (a + r.length) pieces x (is_split t).regions (below_mod t)
          (is_split t).clear.0 (is_split t).clear.1.0
      ∙ rw ((is_split t).same x)

  result-mapped :
      (x : ℕ)
      → mapped_at result.regions x
        ≡ (if in_range address end x then repermit p (mapped_at m x) else mapped_at m x)
  result-mapped =
      mapped_at-range m address end a r (merge_regions looped.1) (repermit p) t.valid (entry t)
        t.fits (merge_regions-Regions a (a + r.length) looped.1 (below_mod t) looped-Regions)
        merged-at

  result-mirrored : (x : ℕ) → replay result.calls x (mapped_at m x) ≡ mapped_at result.regions x
  result-mirrored x =
      let lo = a in
      let hi = a + r.length in
      let w = (is_split t).regions in
      elim (Bool-cases (in_range address end x)) [
        | inr e ↦
            protect_loop-replay_outside address end p lo hi pieces x (mapped_at m x) w (below_mod t)
              e
            ∙ sym (result-mapped x ∙ rw e)
        | inl e ↦
            let o = mapped_at m x in
            let here : o ≡ committed_at pieces x =
              (entry t).mapped x (ground (arith, (entry t).from)) (ground arith)
              ∙ sym ((is_split t).same x) in
            elim (Option-cases (committed_at pieces x)) [
              | inl n ↦
                  protect_loop-replay-none address end p lo hi pieces x o w (below_mod t) n
                  ∙ sym (result-mapped x ∙ rw (e, here ∙ n))
              | inr (c, n) ↦
                  protect_loop-replay_inside address end p lo hi pieces x o c w (below_mod t)
                    (is_split t).clear.0 (is_split t).clear.1.0 (ground arith) (ground arith) n
                  ∙ sym (result-mapped x ∙ rw e)
            ]
      ]

  result-old :
      (c : Permission) → address < end → mapped_at m address ≡ some c → or_no_access looped.0 ≡ c
  result-old c lt e =
      let here : committed_at pieces address ≡ some c =
        (is_split t).same address
        ∙ sym ((entry t).mapped address (entry t).from (entry t).until)
        ∙ e in
      rw (
        protect_loop-old address end p a (a + r.length) pieces c (is_split t).regions (below_mod t)
          (is_split t).clear.0 (is_split t).clear.1.0 lt here)

  protect_memory_run : protect_memory m address size p ≡ ok result
  unfolding protect_memory
  protect_memory_run =
      rw (t.found, protect_memory, end_eq t, entry_end_eq t) (ground (arith, t.fits))

-- A protection inside one reserved region of a valid map succeeds, gives every mapped byte of the range the new permission,
-- changes no other byte, reports the permission of the first byte where that was mapped, and keeps
-- the map valid and the backend in step.
pub protect_memory-Protected :
    (m : ReservedRegionMap) (address size a : ℕ) (r : ReservedRegion) (p : Permission)
    → Targets m address size a r
    → Returns (protect_memory m address size p) (Protected m address (address + size) p)
protect_memory-Protected m address size a r p t = (
  result m address size a r p t,
  protect_memory_run m address size a r p t,
  record {
    succeeded = refl;
    old = λ c lt e. ap some (result-old m address size a r p t c lt e);
    valid = write_back-IsValid m t.valid a r (entry t).stored _ (
        merge_regions-Regions a (a + r.length) _ (below_mod t)
          (looped-Regions m address size a r p t));
    mapped = result-mapped m address size a r p t;
    mirrored = result-mirrored m address size a r p t;
  },
)
