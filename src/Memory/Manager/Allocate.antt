-- ===== src/Memory/Manager/Allocate.antt =====
-- src/emulator/memory_manager.cpp: what `allocate_memory` and `allocate_mmio` do on every branch.
use mathlib.Core.Bool.{false≢true}
use emulator_momo.Common.{
  ◌≢◌, ℕ, ◌+◌, ◌≤◌, ◌<◌, ◌≡◌, refl, Bool, true, false, ◌∙◌, sym, inl, inr, ◌⊎◌, Option, none, some,
  [], ◌∷◌, arith, put, if◌then◌else◌, Bool-cases, lookup, lookup-put, eq→==,
}
use emulator_momo.Memory.Region.{Permission, read_write, CommittedRegionMap, committed_at}
use emulator_momo.Memory.Region.Merge.{Regions}
use emulator_momo.Memory.Reserved.{ReservedRegion, ReservedRegionMap, BackendCall, Outcome}
use emulator_momo.Memory.Reserved.Valid.{top, IsValid, mapped_at, effect, replay, in_range}
use emulator_momo.Memory.Manager.{allocate_memory, allocate_mmio}
use emulator_momo.Memory.Reserved.{overlaps_reserved_region, map_memory, map_mmio}
use emulator_momo.Memory.Reserved.Valid.{is_reserved}
use emulator_momo.Memory.Manager.Grow.{
  Allocated, Refused, try_emplace-absent, absent, refused, range_free, entered-eq, region-at,
  grown-IsValid, grown-reserved, grown-mapped,
}

nothing-at : (x : ℕ) → committed_at [] x ≡ none
unfolding committed_at
nothing-at x = refl

mapped_at-unreserved :
    (m : ReservedRegionMap) (x : ℕ) → is_reserved m x ≡ false → mapped_at m x ≡ none
unfolding is_reserved mapped_at
mapped_at-unreserved m x h = ground arith

module _ (m : ReservedRegionMap) (a n : ℕ) (p : Permission) (v : IsValid m) (k : a + n ≤ top)
    (some_size : 0 < n) where
  abbrev end : ℕ
  end = a + n

  abbrev whole : CommittedRegionMap
  whole = (a, record { length = n; permissions = read_write }) ∷ []

  whole-Regions : Regions a end whole
  whole-Regions = omega arith

  module _ (free : overlaps_reserved_region m a n ≡ false) where
    -- The outcome with the committed region recorded.
    abbrev full : Bool → BackendCall → Outcome Bool
    full mmio call = record {
      value = true;
      regions = put a (record { length = n; committed = whole; is_mmio = mmio }) m;
      calls = call ∷ [];
    }

    full-Allocated :
        (mmio : Bool) (call : BackendCall) (q : Permission)
        → ((x : ℕ) (o : Option Permission)
            → effect call x o ≡ (if in_range a end x then some q else o))
        → Allocated m a end (some read_write) (some q) (full mmio call)
    unfolding replay
    full-Allocated mmio call q e = record {
      succeeded = refl;
      valid = grown-IsValid a n k some_size m v free whole mmio whole-Regions;
      free = range_free a n k some_size m v free;
      reserved = grown-reserved a n k some_size m v free whole mmio whole-Regions;
      mapped = λ x.
          grown-mapped a n k some_size m v free whole mmio whole-Regions x
          ∙ rw (region-at a n k some_size m v free x) (ground arith);
      mirrored = λ x. e x (mapped_at m x);
    }

    reserved-Allocated : Allocated m a end none none (record {
      value = true;
      regions = put a (record { length = n; committed = []; is_mmio = false }) m;
      calls = [];
    })
    unfolding replay
    reserved-Allocated = record {
      succeeded = refl;
      valid = grown-IsValid a n k some_size m v free [] false (omega arith);
      free = range_free a n k some_size m v free;
      reserved = grown-reserved a n k some_size m v free [] false (omega arith);
      mapped =
          λ x. grown-mapped a n k some_size m v free [] false (omega arith) x ∙ rw (nothing-at x);
      mirrored =
          λ x. ground (arith, range_free a n k some_size m v free x, mapped_at-unreserved m x);
    }

-- An allocation in a valid map, of a range that is not empty and does not pass the top, either is refused, where some address of the range is reserved
-- already, and changes nothing, or reserves the free range. Unless it only reserves, it records the
-- range as `read_write` and maps it in the backend with the permission that was asked for.
pub allocate_memory_cases :
    (m : ReservedRegionMap) (a n : ℕ) (p : Permission) (reserve_only : Bool)
    → IsValid m
    → a + n ≤ top
    → 0 < n
    → Refused m a (a + n) (allocate_memory m a n p reserve_only)
      ⊎ Allocated m a
          (a + n)
          (if reserve_only then none else some read_write)
          (if reserve_only then none else some p)
          (allocate_memory m a n p reserve_only)
unfolding allocate_memory effect
allocate_memory_cases m a n p reserve_only v k h =
    elim (Bool-cases (overlaps_reserved_region m a n)) [
      | inl e ↦ inl (rw (e, allocate_memory) (refused a n k h m v e))
      | inr e ↦ inr (free_case reserve_only e)
    ]
  where
    free_case :
        (reserve_only : Bool)
        → overlaps_reserved_region m a n ≡ false
        → Allocated m a
            (a + n)
            (if reserve_only then none else some read_write)
            (if reserve_only then none else some p)
            (allocate_memory m a n p reserve_only)
    free_case true e =
        rw (e, allocate_memory, try_emplace-absent a _ m (absent a n k h m v e))
          (reserved-Allocated m a n p v k h e)
    free_case false e =
        rw (e, allocate_memory, entered-eq a n k h m v e false)
          (full-Allocated m a n p v k h e false (map_memory a n p) p (λ x o. refl))

-- The entry of an allocation that succeeds.
pub allocate_memory_entry :
    (m : ReservedRegionMap) (a n : ℕ) (p : Permission)
    → IsValid m
    → a + n ≤ top
    → 0 < n
    → (allocate_memory m a n p false).value ≡ true
    → (r : ReservedRegion) × (lookup a (allocate_memory m a n p false).regions ≡ some r)
      × (r.length ≡ n)
unfolding allocate_memory
allocate_memory_entry m a n p v k h done = elim (Bool-cases (overlaps_reserved_region m a n)) [
  | inl e ↦ let done' = rw (allocate_memory, e) at done in absurd (cc done')
  | inr e ↦
      let r : ReservedRegion = record {
        length = n;
        committed = whole m a n p v k h;
        is_mmio = false;
      } in
      (
        r,
        rw (e, allocate_memory, entered-eq a n k h m v e false)
            (lookup-put a a r m ∙ rw (eq→== a a refl)),
        refl,
      )
]

-- An MMIO allocation in a valid map, of a range that is not empty and does not pass the top, either
-- is refused, where some address of the range is reserved already, and changes nothing, or reserves
-- the free range and maps it for reading and writing, in the map and in the backend.
pub allocate_mmio_cases :
    (m : ReservedRegionMap) (a n : ℕ)
    → IsValid m
    → a + n ≤ top
    → 0 < n
    → Refused m a (a + n) (allocate_mmio m a n)
      ⊎ Allocated m a (a + n) (some read_write) (some read_write) (allocate_mmio m a n)
unfolding allocate_mmio effect
allocate_mmio_cases m a n v k h = elim (Bool-cases (overlaps_reserved_region m a n)) [
  | inl e ↦ inl (rw (e, allocate_mmio) (refused a n k h m v e))
  | inr e ↦ inr (
      rw (e, allocate_mmio, entered-eq a n k h m v e true)
        (full-Allocated m a n read_write v k h e true (map_mmio a n) read_write (λ x o. refl)))
]

-- After a successful allocation, in a valid map, with a permission other than `read_write`, the region map says `read_write` at every address of the range, and the backend does not.
pub allocate_memory_out_of_step :
    (m : ReservedRegionMap) (a n : ℕ) (p : Permission) (x : ℕ)
    → IsValid m
    → a + n ≤ top
    → 0 < n
    → (allocate_memory m a n p false).value ≡ true
    → p ≢ read_write
    → in_range a (a + n) x ≡ true
    → (mapped_at (allocate_memory m a n p false).regions x ≡ some read_write)
      × (replay (allocate_memory m a n p false).calls x (mapped_at m x) ≡ some p)
      × (replay (allocate_memory m a n p false).calls x (mapped_at m x)
          ≢ mapped_at (allocate_memory m a n p false).regions x)
allocate_memory_out_of_step m a n p x v k h done other inside =
    elim (allocate_memory_cases m a n p false v k h) [
      | inl r ↦ absurd (false≢true (sym r.failed ∙ done))
      | inr o ↦
          let after = allocate_memory m a n p false in
          let recorded : mapped_at after.regions x ≡ some read_write = o.mapped x ∙ rw inside in
          let backed : replay after.calls x (mapped_at m x) ≡ some p = o.mirrored x ∙ rw inside in
          (recorded, backed, λ same. other (cc (sym backed ∙ same ∙ recorded)))
    ]
