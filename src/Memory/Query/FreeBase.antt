-- ===== src/Memory/Query/FreeBase.antt =====
-- src/emulator/memory_manager.cpp: what `find_free_allocation_base` returns.
use emulator_momo.Common.{
  ◌≢◌, ◌^◌, max, ℕ, ◌+◌, ◌≤◌, ◌<◌, ◌≡◌, refl, Bool, true, false, ◌||◌, ◌∙◌, inl, inr, ◌⊎◌, [], ◌∷◌,
  arith, ltb, leb, ◌==◌, if◌then◌else◌, add64, add64-eq, u64_mod, Bool-cases, All, ltb→lt,
}
use emulator_momo.Memory.Spans.{Spans, Spans-le}
use emulator_momo.Memory.Reserved.{ReservedRegion, ReservedRegionMap}
use emulator_momo.Memory.Address.{regions_with_length_intersect, page_align_up}
use emulator_momo.Memory.Align.{page_align_bounds}
use emulator_momo.Memory.Query.{free_base_loop, find_free_allocation_base}
use emulator_momo.Memory.Reserved.{
  overlaps_reserved_region, min_allocation_address, max_allocation_address,
}
use emulator_momo.Memory.Reserved.Valid.{reserved_length}

-- No reservation ends exactly at the address `b`.
abbrev pub NoEndAt : ℕ → ReservedRegionMap → Type 0
NoEndAt b = All (λ e. e.0 + e.1.length ≢ b)

abbrev pub base_of : ℕ ⊎ ℕ → ℕ
base_of (inl b) = b
base_of (inr b) = b

-- Regions that start behind the range do not meet it.
overlaps-above :
    (b size lo hi : ℕ) (m : ReservedRegionMap)
    → Spans reserved_length lo hi m
    → hi < u64_mod
    → b + size < u64_mod
    → b + size ≤ lo
    → overlaps_reserved_region m b size ≡ false
unfolding overlaps_reserved_region regions_with_length_intersect
overlaps-above b size lo hi [] s h k l = refl
overlaps-above b size lo hi ((f, r) ∷ m) s h k l = ground (
  arith,
  add64-eq b size,
  overlaps-above b size (f + r.length) hi m s.2,
  Spans-le reserved_length (f + r.length) hi m s.2,
)

module _ (size hi : ℕ) (room : hi + 4096 + size < u64_mod) where
  behind :
      (b f n : ℕ)
      → f + n ≤ b
      → f + n < u64_mod
      → b + size < u64_mod
      → regions_with_length_intersect b size f n ≡ false
  unfolding regions_with_length_intersect
  behind b f n h k l = ground (arith, add64-eq b size, add64-eq f n)

  apart_above :
      (b f n : ℕ)
      → f + n < u64_mod
      → b + size < u64_mod
      → b ≤ f + n
      → f + n ≢ b
      → regions_with_length_intersect b size f n ≡ false
      → b + size ≤ f
  unfolding regions_with_length_intersect
  apart_above b f n h k l ne e = ground (arith, add64-eq b size, add64-eq f n)

  -- The loop moves up only, and stays within a page of the last region or of its start.
  free_base_loop-range :
      (lo start : ℕ) (m : ReservedRegionMap)
      → Spans reserved_length lo hi m
      → (start ≤ base_of (free_base_loop m size start))
        × (base_of (free_base_loop m size start) ≤ max start (hi + 4095))
  unfolding free_base_loop
  free_base_loop-range lo start [] s = (omega arith, omega arith)
  free_base_loop-range lo start ((f, r) ∷ m) s =
      let le = Spans-le reserved_length (f + r.length) hi m s.2 in
      let sum = add64-eq f r.length (omega arith) in
      let up = page_align_bounds (f + r.length) (omega arith) in
      elim (Bool-cases (ltb (f + r.length) start)) [
        | inl e ↦ rw (sum, e) (free_base_loop-range (f + r.length) start m s.2)
        | inr e ↦ elim (Bool-cases (regions_with_length_intersect start size f r.length)) [
          | inr d ↦ rw (sum, e, d) (omega arith, omega arith)
          | inl d ↦
              let ge : start ≤ f + r.length = ground arith in
              let rest = free_base_loop-range (f + r.length) (page_align_up (f + r.length)) m s.2 in
              rw (sum, e, d) (omega (arith, up), omega (arith, up))
        ]
      ]

  -- Unless a reservation ends at the base found, the range from there on is free.
  free_base_loop-clear :
      (lo start b : ℕ) (m : ReservedRegionMap)
      → Spans reserved_length lo hi m
      → start ≤ hi + 4096
      → base_of (free_base_loop m size start) ≡ b
      → NoEndAt b m
      → overlaps_reserved_region m b size ≡ false
  unfolding free_base_loop overlaps_reserved_region
  free_base_loop-clear lo start b [] s k q n = refl
  free_base_loop-clear lo start b ((f, r) ∷ m) s k q n =
      let le = Spans-le reserved_length (f + r.length) hi m s.2 in
      let sum = add64-eq f r.length (omega arith) in
      let up = page_align_bounds (f + r.length) (omega arith) in
      elim (Bool-cases (ltb (f + r.length) start)) [
        | inl e ↦
            let q' : base_of (free_base_loop m size start) ≡ b = rw (sum, e) at q in
            let range = free_base_loop-range (f + r.length) start m s.2 in
            let lt = ltb→lt (f + r.length) start e in
            rw (behind b f r.length (omega arith) (omega arith) (omega arith))
              (free_base_loop-clear (f + r.length) start b m s.2 k q' n.1)
        | inr e ↦ elim (Bool-cases (regions_with_length_intersect start size f r.length)) [
          | inr d ↦
              let q' : start ≡ b = rw (sum, e, d) at q in
              let d' : regions_with_length_intersect b size f r.length ≡ false = rw q' at d in
              let ge : b ≤ f + r.length = ground arith in
              let above = apart_above b f r.length (omega arith) (omega arith) ge n.0 d' in
              rw d' (
                overlaps-above b size (f + r.length) hi m s.2 (omega arith) (omega arith)
                  (omega arith))
          | inl d ↦
              let a = page_align_up (f + r.length) in
              let q' : base_of (free_base_loop m size a) ≡ b = rw (sum, e, d) at q in
              let range = free_base_loop-range (f + r.length) a m s.2 in
              rw (behind b f r.length (omega (arith, up)) (omega arith) (omega (arith, up)))
                (free_base_loop-clear (f + r.length) a b m s.2 (omega (arith, up)) q' n.1)
        ]
      ]

-- The address where the search starts.
abbrev pub first_base : ℕ → ℕ
first_base start = max min_allocation_address (if start == 0 then 0x100000000 else start)

find-cases :
    (m : ReservedRegionMap) (size start : ℕ) (o : ℕ ⊎ ℕ)
    → free_base_loop m size (first_base start) ≡ o
    → (find_free_allocation_base m size start ≡ 0)
      ⊎ (base_of o ≡ find_free_allocation_base m size start)
unfolding find_free_allocation_base
find-cases m size start (inl b) e = inr (rw (e, find_free_allocation_base))
find-cases m size start (inr b) e = elim (Bool-cases (leb (add64 b size) max_allocation_address)) [
  | inl f ↦ inr (rw (e, find_free_allocation_base, f))
  | inr f ↦ inl (rw (e, find_free_allocation_base, f))
]

-- Where every reservation ends at `max_allocation_address` or below, the search starts there or
-- below, and the size is less than 2 ^ 62: the base that is found is not below the address where the search starts, and the range of `size`
-- bytes from there on meets no reservation, unless a reservation ends exactly at the base; or
-- the result is 0.
pub find_free_allocation_base-free :
    (m : ReservedRegionMap) (size start : ℕ)
    → Spans reserved_length 0 max_allocation_address m
    → start ≤ max_allocation_address
    → size < 2 ^ 62
    → NoEndAt (find_free_allocation_base m size start) m
    → (find_free_allocation_base m size start ≡ 0)
      ⊎ ((first_base start ≤ find_free_allocation_base m size start)
          × (overlaps_reserved_region m (find_free_allocation_base m size start) size ≡ false))
find_free_allocation_base-free m size start s k n free =
    let hi = max_allocation_address in
    let room : hi + 4096 + size < u64_mod = omega arith in
    let first_le : first_base start ≤ hi = ground arith in
    elim (find-cases m size start (free_base_loop m size (first_base start)) refl) [
      | inl z ↦ inl z
      | inr e ↦
          let range = free_base_loop-range size hi room 0 (first_base start) m s in
          let clear =
            free_base_loop-clear size hi room 0 (first_base start)
              (find_free_allocation_base m size start) m s (omega arith) e free in
          inr (omega (arith, range, e), clear)
    ]

or_true : (c : Bool) → (c || true) ≡ true
or_true true = refl
or_true false = refl

free_base_loop_stops :
    (f size b : ℕ) (r : ReservedRegion) (m : ReservedRegionMap)
    → add64 f r.length ≡ b
    → free_base_loop ((f, r) ∷ m) size b ≡ inl b
unfolding free_base_loop regions_with_length_intersect
free_base_loop_stops f size b r m e =
    let same : ltb b b ≡ false = ground arith in
    rw (e, free_base_loop, regions_with_length_intersect) (rw same)

meets_itself :
    (b size n : ℕ)
    → 0 < size
    → 0 < n
    → b + size < u64_mod
    → b + n < u64_mod
    → regions_with_length_intersect b size b n ≡ true
unfolding regions_with_length_intersect
meets_itself b size n h k l p = ground (arith, add64-eq b size, add64-eq b n)

-- Where the first reservation ends at the start of the search, and the second one begins there, the
-- base of that second reservation is returned, for every size from 1 to below 2 ^ 62.
pub find_free_allocation_base-taken :
    (m : ReservedRegionMap) (size start f : ℕ) (r s : ReservedRegion)
    → f + r.length ≡ first_base start
    → first_base start ≤ max_allocation_address
    → 0 < size
    → size < 2 ^ 62
    → 0 < s.length
    → s.length < 2 ^ 62
    → (find_free_allocation_base ((f, r) ∷ (first_base start, s) ∷ m) size start ≡ first_base start)
      × (overlaps_reserved_region
            ((f, r) ∷ (first_base start, s) ∷ m)
            (find_free_allocation_base ((f, r) ∷ (first_base start, s) ∷ m) size start)
            size
          ≡ true)
unfolding find_free_allocation_base overlaps_reserved_region
find_free_allocation_base-taken m size start f r s e k n l p q =
    let b = first_base start in
    let sum : add64 f r.length ≡ b = add64-eq f r.length (omega arith) ∙ e in
    let stops = free_base_loop_stops f size b r ((b, s) ∷ m) sum in
    let meets = meets_itself b size s.length n p (omega arith) (omega arith) in
    let found : find_free_allocation_base ((f, r) ∷ (b, s) ∷ m) size start ≡ b =
      rw (stops, find_free_allocation_base) in
    (found, rw found (rw meets (or_true (regions_with_length_intersect b size f r.length))))
