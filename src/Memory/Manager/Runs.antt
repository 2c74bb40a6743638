-- ===== src/Memory/Manager/Runs.antt =====
-- src/emulator/memory_manager.cpp: every operation, and so every sequence of them, keeps the regions and the backend in step.
use emulator_momo.Common.{
  ℕ, ◌+◌, ◌≤◌, ◌<◌, ◌≡◌, refl, sym, ap, ◌∙◌, Bool, true, false, ◌⊎◌, inl, inr, Option, none, some,
  arith, lookup, ltb, leb, if◌then◌else◌, Bool-cases, Option-cases, Result, ok, thrown, Returns,
  Returns_ok, ok≢thrown,
}
use emulator_momo.Memory.Region.{Permission, read_write}
use emulator_momo.Memory.Reserved.{
  ReservedRegion, ReservedRegionMap, Outcome, unchanged, find_reserved_region,
}
use emulator_momo.Memory.Reserved.Range.{Targets}
use emulator_momo.Memory.Reserved.Valid.{top, IsValid, mapped_at, replay}
use emulator_momo.Memory.Manager.{protect_memory, commit_memory, decommit_memory, release_memory}
use emulator_momo.Memory.Manager.Allocate.{allocate_memory_cases, allocate_mmio_cases}
use emulator_momo.Memory.Manager.Commit.{commit_memory-Committed}
use emulator_momo.Memory.Manager.Decommit.{decommit_memory-Decommitted}
use emulator_momo.Memory.Manager.Errors.{range_operations_refuse}
use emulator_momo.Memory.Manager.Grow.{Allocated, Refused}
use emulator_momo.Memory.Manager.Protect.{protect_memory-Protected}
use emulator_momo.Memory.Manager.Release.{release_memory-Released, released_size}
use emulator_momo.Memory.Manager.Steps.{
  is_mapped, Machine, after, Step, protecting, committing, decommitting, releasing, allocating,
  allocating_mmio, Run, done, more, IsInStep, is_mapped-replay,
}

-- What an outcome must be for that to go on.
record Kept (m : ReservedRegionMap) {A : Type 0} (o : Outcome A) : Type 0 where
  valid : IsValid o.regions
  mirrored :
      (x : ℕ) → is_mapped (replay o.calls x (mapped_at m x)) ≡ is_mapped (mapped_at o.regions x)

after-IsInStep :
    {A : Type 0} (s : Machine) (o : Outcome A)
    → IsInStep s
    → Kept s.regions o
    → IsInStep (after s o)
after-IsInStep s o i k = record {
  valid = k.valid;
  mirrored = λ x.
      is_mapped-replay o.calls x (s.backend x) (mapped_at s.regions x) (i.mirrored x)
      ∙ k.mirrored x;
}

unchanged-Kept :
    {A : Type 0} (value : A) (m : ReservedRegionMap) → IsValid m → Kept m (unchanged value m)
unfolding replay
unchanged-Kept value m v = record { valid = v; mirrored = λ x. refl }

module _ (m : ReservedRegionMap) (v : IsValid m) (address size : ℕ) (k : address + size ≤ top) where
  -- An operation on a range: it changes nothing where no entry is found, and throws where the range
  -- leaves the entry.
  range-Kept :
      {A : Type 0} (value : A) (run : Result (Outcome A)) (o : Outcome A)
      → run ≡ ok o
      → (find_reserved_region m address ≡ none → run ≡ ok (unchanged value m))
      → ((a : ℕ) (r : ReservedRegion)
          → Targets m address size a r
          → Returns run (Kept m) ⊎ (run ≡ thrown))
      → ((a : ℕ) (r : ReservedRegion)
          → find_reserved_region m address ≡ some (a, r)
          → a + r.length < address + size
          → run ≡ thrown)
      → Kept m o
  range-Kept value run o e outside inside behind =
      let impossible : run ≡ thrown → Kept m o = λ f. absurd (ok≢thrown (sym e ∙ f)) in
      elim (Option-cases (find_reserved_region m address)) [
        | inl free ↦
            Returns_ok {P = Kept m} (unchanged value m, outside free, unchanged-Kept value m v) e
        | inr ((a, r), found) ↦ elim (Bool-cases (leb (address + size) (a + r.length))) [
          | inl fits ↦
              elim (inside a r (record { valid = v; found = found; fits = ground (arith, fits) })) [
                | inl returns ↦ Returns_ok {P = Kept m} returns e
                | inr f ↦ impossible f
              ]
          | inr past ↦ impossible (behind a r found (ground (arith, past)))
        ]
      ]

  protect_memory-Kept :
      (p : Permission) (o : Outcome (Bool × Option Permission))
      → protect_memory m address size p ≡ ok o
      → Kept m o
  unfolding protect_memory
  protect_memory-Kept p o e =
      range-Kept (false, none) (protect_memory m address size p) o e
        (λ free. rw (free, protect_memory) refl)
        (λ a r t.
          let (q, run, h) = protect_memory-Protected m address size a r p t in
          inl (q, run, record { valid = h.valid; mirrored = λ x. ap is_mapped (h.mirrored x) }))
        (λ a r found past. ((range_operations_refuse m address size p v k).1 a r found past).0)

  commit_memory-Kept :
      (p : Permission) (o : Outcome Bool)
      → 0 < size
      → commit_memory m address size p ≡ ok o
      → Kept m o
  unfolding commit_memory
  commit_memory-Kept p o some_size e =
      range-Kept false (commit_memory m address size p) o e (λ free. rw (free, commit_memory) refl)
        (λ a r t.
          let (q, run, h) = commit_memory-Committed m address size a r p t some_size in
          inl (q, run, record { valid = h.valid; mirrored = λ x. ap is_mapped (h.mirrored x) }))
        (λ a r found past. ((range_operations_refuse m address size p v k).1 a r found past).1)

  decommit_memory-Kept : (o : Outcome Bool) → decommit_memory m address size ≡ ok o → Kept m o
  unfolding decommit_memory
  decommit_memory-Kept o e =
      range-Kept false (decommit_memory m address size) o e
        (λ free. rw (free, decommit_memory) refl)
        (λ a r t. elim (Bool-cases r.is_mmio) [
          | inl mmio ↦ inr (rw (t.found, decommit_memory, mmio) refl)
          | inr plain ↦
              let (q, run, h) = decommit_memory-Decommitted m address size a r t plain in
              inl (q, run, record { valid = h.valid; mirrored = λ x. ap is_mapped (h.mirrored x) })
        ])
        (λ a r found past. ((range_operations_refuse m address size 0 v k).1 a r found past).2)

  -- A refused allocation changes nothing, and another maps the range or only reserves it.
  allocation-Kept :
      (o : Outcome Bool) (recorded backed : Option Permission)
      → is_mapped recorded ≡ is_mapped backed
      → Refused m address (address + size) o
        ⊎ Allocated m address (address + size) recorded backed o
      → Kept m o
  unfolding replay
  allocation-Kept o recorded backed e (inl h) = record {
    valid = rw h.regions v;
    mirrored = λ x. rw (h.regions, h.calls) refl;
  }
  allocation-Kept o recorded backed e (inr h) = record {
    valid = h.valid;
    mirrored = λ x. rw (h.mapped x, h.mirrored x) (ground (arith, e));
  }

release_memory-Kept :
    (m : ReservedRegionMap) (v : IsValid m) (address size : ℕ) (o : Outcome Bool)
    → release_memory m address size ≡ ok o
    → Kept m o
unfolding release_memory
release_memory-Kept m v address size o e = elim (Option-cases (lookup address m)) [
  | inl absent ↦
      Returns_ok {P = Kept m}
        (unchanged false m, rw (absent, release_memory) refl, unchanged-Kept false m v) e
  | inr (r, found) ↦ elim (Bool-cases (ltb r.length (released_size size r))) [
    | inl past ↦ absurd (ok≢thrown (sym e ∙ rw (found, release_memory, past) refl))
    | inr fits ↦
        let (q, run, h) = release_memory-Released m address size r v found (ground (arith, fits)) in
        Returns_ok {P = Kept m}
          (q, run, record { valid = h.valid; mirrored = λ x. ap is_mapped (h.mirrored x) }) e
  ]
]

Step-IsInStep : (s t : Machine) → Step s t → IsInStep s → IsInStep t
unfolding is_mapped
Step-IsInStep _ _ (protecting s address size p o e k) i =
    after-IsInStep s o i (protect_memory-Kept s.regions i.valid address size k p o e)
Step-IsInStep _ _ (committing s address size p o e k n) i =
    after-IsInStep s o i (commit_memory-Kept s.regions i.valid address size k p o n e)
Step-IsInStep _ _ (decommitting s address size o e k) i =
    after-IsInStep s o i (decommit_memory-Kept s.regions i.valid address size k o e)
Step-IsInStep _ _ (releasing s address size o e) i =
    after-IsInStep s o i (release_memory-Kept s.regions i.valid address size o e)
Step-IsInStep _ _ (allocating s address size p reserve_only k n) i = after-IsInStep s _ i (
    allocation-Kept s.regions i.valid address size k _ _ _
      (elim reserve_only
        as (λ b.
          is_mapped (if b then none else some read_write)
          ≡ is_mapped (if b then none else some p)) [ true ↦ refl | false ↦ refl ])
      (allocate_memory_cases s.regions address size p reserve_only i.valid k n))
Step-IsInStep _ _ (allocating_mmio s address size k n) i = after-IsInStep s _ i (
    allocation-Kept s.regions i.valid address size k _ _ _ refl
      (allocate_mmio_cases s.regions address size i.valid k n))

-- After any sequence of operations of the memory manager that end without an exception, whose ranges do not pass the
-- top of the address space and are not empty where they are committed or allocated, the reserved and committed regions are still valid,
-- and the backend has mapped exactly the addresses that the regions say are mapped, where this held at first.
pub Run-IsInStep : (s t : Machine) → Run s t → IsInStep s → IsInStep t
Run-IsInStep _ _ (done s) i = i
Run-IsInStep _ _ (more s q u step run) i = Run-IsInStep q u run (Step-IsInStep s q step i)
