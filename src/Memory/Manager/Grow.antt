-- ===== src/Memory/Manager/Grow.antt =====
-- src/emulator/memory_manager.cpp: `overlaps_reserved_region`, and what a new entry in a free range changes.
use emulator_momo.Common.{
  ℕ, ◌+◌, ◌≤◌, ◌<◌, ◌≡◌, refl, Bool, true, false, ◌&&◌, ◌∙◌, inl, inr, Option, none, some, [], ◌∷◌,
  arith, lookup, lookup-put, put, put-put, max, ltb, eq→==, ap, if◌then◌else◌, add64-eq, Bool-cases,
  All,
}
use emulator_momo.Memory.Spans.{Spans, Spans-le}
use emulator_momo.Memory.Region.{
  Permission, read_write, CommittedRegion, CommittedRegionMap, committed_at,
}
use emulator_momo.Memory.Region.Merge.{Regions}
use emulator_momo.Memory.Reserved.{ReservedRegion, ReservedRegionMap, Outcome}
use emulator_momo.Memory.Reserved.Valid.{top, IsValid, mapped_at, replay, in_range}
use emulator_momo.Memory.Address.{regions_with_length_intersect}
use emulator_momo.Memory.Spans.{containing}
use emulator_momo.Memory.SpansInsert.{
  Apart, lookup-Apart, containing-Apart, insert-Spans, containing-insert, All-insert,
}
use emulator_momo.Memory.Manager.{commit_at, try_emplace}
use emulator_momo.Memory.Reserved.{overlaps_reserved_region}
use emulator_momo.Memory.Reserved.Valid.{Inside, reserved_length, is_reserved}

is_reserved-cons :
    (b : ℕ) (r : ReservedRegion) (m : ReservedRegionMap) (x : ℕ)
    → is_reserved m x ≡ true
    → is_reserved ((b, r) ∷ m) x ≡ true
unfolding is_reserved containing
is_reserved-cons b r m x h = ground arith

pub try_emplace-absent :
    (k : ℕ) (r : ReservedRegion) (m : ReservedRegionMap)
    → lookup k m ≡ none
    → try_emplace k r m ≡ put k r m
unfolding try_emplace
try_emplace-absent k r m e = rw (e, try_emplace)

commit_at-stored :
    (k : ℕ) (g : CommittedRegion) (r : ReservedRegion) (m : ReservedRegionMap)
    → lookup k m ≡ some r
    → commit_at k g m ≡ put k (record r { committed = put k g r.committed }) m
unfolding commit_at
commit_at-stored k g r m e = rw (e, commit_at)

-- What an allocation of [a, e) promises: the range was free; it is reserved afterwards, and its
-- addresses are mapped as `recorded` says in the region map and as `backed` says in the backend.
pub record Allocated (m : ReservedRegionMap) (a e : ℕ) (recorded backed : Option Permission)
    (o : Outcome Bool) : Type 0 where
  pub succeeded : o.value ≡ true
  pub valid : IsValid o.regions
  pub free : (x : ℕ) → in_range a e x ≡ true → is_reserved m x ≡ false
  pub reserved :
      (x : ℕ) → is_reserved o.regions x ≡ (if in_range a e x then true else is_reserved m x)
  pub mapped :
      (x : ℕ) → mapped_at o.regions x ≡ (if in_range a e x then recorded else mapped_at m x)
  pub mirrored :
      (x : ℕ)
      → replay o.calls x (mapped_at m x) ≡ (if in_range a e x then backed else mapped_at m x)

-- A refused allocation changes nothing, and some address of the range is reserved.
pub record Refused (m : ReservedRegionMap) (a e : ℕ) (o : Outcome Bool) : Type 0 where
  pub failed : o.value ≡ false
  pub regions : o.regions ≡ m
  pub calls : o.calls ≡ []
  pub taken : (x : ℕ) × (in_range a e x ≡ true) × (is_reserved m x ≡ true)

-- The addresses [a, a + n) do not wrap, and there is one at least.
module _ (a n : ℕ) (k : a + n ≤ top) (some_size : 0 < n) where
  overlaps-Apart :
      (lo : ℕ) (m : ReservedRegionMap)
      → Spans reserved_length lo top m
      → overlaps_reserved_region m a n ≡ false
      → All (Apart reserved_length a n) m
  unfolding overlaps_reserved_region regions_with_length_intersect
  overlaps-Apart lo [] s h = tt
  overlaps-Apart lo ((b, r) ∷ m) s h =
      let le = Spans-le reserved_length (b + r.length) top m s.2 in
      (
        ground (arith, add64-eq a n, add64-eq b r.length),
        overlaps-Apart (b + r.length) m s.2 (ground arith),
      )

  -- Some address of the range is reserved where the test says so.
  overlaps-witness :
      (lo : ℕ) (m : ReservedRegionMap)
      → Spans reserved_length lo top m
      → overlaps_reserved_region m a n ≡ true
      → (x : ℕ) × (in_range a (a + n) x ≡ true) × (is_reserved m x ≡ true)
  unfolding overlaps_reserved_region regions_with_length_intersect is_reserved containing
  overlaps-witness lo [] s h = cc
  overlaps-witness lo ((b, r) ∷ m) s h =
      let le = Spans-le reserved_length (b + r.length) top m s.2 in
      let e1 = add64-eq a n (omega arith) in
      let e2 = add64-eq b r.length (omega arith) in
      elim (Bool-cases (ltb a (b + r.length) && ltb b (a + n))) [
        | inl e ↦ (max a b, ground arith, ground arith)
        | inr e ↦
            let (x, p, q) = overlaps-witness (b + r.length) m s.2 (ground (arith, e1, e2)) in
            (x, p, is_reserved-cons b r m x q)
      ]

  module _ (m : ReservedRegionMap) (v : IsValid m) where
    pub refused :
        overlaps_reserved_region m a n ≡ true
        → Refused m a (a + n) (record { value = false; regions = m; calls = [] })
    refused h = record {
      failed = refl;
      regions = refl;
      calls = refl;
      taken = overlaps-witness 0 m v.reserved h;
    }

    module _ (free : overlaps_reserved_region m a n ≡ false) where
      apart : All (Apart reserved_length a n) m
      apart = overlaps-Apart 0 m v.reserved free

      pub absent : lookup a m ≡ none
      absent =
          lookup-Apart reserved_length a (record { length = n; committed = []; is_mmio = false })
            some_size 0 top m v.reserved apart

      -- A new entry whose committed map is `c`.
      module _ (c : CommittedRegionMap) (mmio : Bool) (w : Regions a (a + n) c) where
        abbrev pub entered : ReservedRegion
        entered = record { length = n; committed = c; is_mmio = mmio }

        abbrev pub grown : ReservedRegionMap
        grown = put a entered m

        pub grown-IsValid : IsValid grown
        grown-IsValid = record {
          reserved =
              insert-Spans reserved_length a entered some_size 0 top m v.reserved apart
                (omega arith) k;
          committed = All-insert reserved_length a entered some_size Inside m w v.committed;
        }

        grown-containing :
            (x : ℕ)
            → containing reserved_length x grown
              ≡ (if in_range a (a + n) x then some (a, entered) else containing reserved_length x m)
        grown-containing x =
            containing-insert reserved_length a entered some_size x 0 top m v.reserved apart

        pub grown-reserved :
            (x : ℕ) → is_reserved grown x ≡ (if in_range a (a + n) x then true else is_reserved m x)
        unfolding is_reserved
        grown-reserved x = rw (grown-containing x, is_reserved) (ground arith)

        pub grown-mapped :
            (x : ℕ)
            → mapped_at grown x ≡ (if in_range a (a + n) x then committed_at c x else mapped_at m x)
        unfolding mapped_at
        grown-mapped x = rw (grown-containing x, mapped_at) (ground arith)

      pub range_free : (x : ℕ) → in_range a (a + n) x ≡ true → is_reserved m x ≡ false
      unfolding is_reserved
      range_free x h =
          let none_there =
            containing-Apart reserved_length a
              (record { length = n; committed = []; is_mmio = false }) some_size x m apart
              (ground arith) (ground arith) in
          rw (none_there, is_reserved)

      abbrev pub region : CommittedRegion
      region = record { length = n; permissions = read_write }

      -- The region that the code records under the new entry.
      pub entered-eq :
          (mmio : Bool)
          → commit_at a region
              (try_emplace a (record { length = n; committed = []; is_mmio = mmio }) m)
            ≡ put a (record { length = n; committed = (a, region) ∷ []; is_mmio = mmio }) m
      unfolding put
      entered-eq mmio =
          let e : ReservedRegion = record { length = n; committed = []; is_mmio = mmio } in
          let found : lookup a (put a e m) ≡ some e = lookup-put a a e m ∙ rw (eq→== a a refl) in
          ap (commit_at a region) (try_emplace-absent a e m absent)
          ∙ commit_at-stored a region e (put a e m) found
          ∙ put-put a _ e m

      pub region-at :
          (x : ℕ)
          → committed_at ((a, region) ∷ []) x
            ≡ (if in_range a (a + n) x then some read_write else none)
      unfolding committed_at
      region-at x = refl
