-- ===== src/Memory/Query/Info.antt =====
-- src/emulator/memory_manager.cpp: what `get_region_info` reports of an address.
use emulator_momo.Common.{
  ℕ, ◌+◌, ◌≤◌, ◌≡◌, refl, true, false, inl, inr, Option, none, some, [], ◌∷◌, arith, ltb, leb,
  if◌then◌else◌, add64-eq, Bool-cases, Option-cases,
}
use emulator_momo.Memory.Region.{Permission, CommittedRegion, CommittedRegionMap, committed_at}
use emulator_momo.Memory.Region.Merge.{Regions}
use emulator_momo.Memory.Reserved.{ReservedRegionMap}
use emulator_momo.Memory.Reserved.Valid.{top, IsValid, mapped_at}
use emulator_momo.Memory.Spans.{last_le, last_le-bounds, containing, containing-last_le}
use emulator_momo.Memory.Query.{RegionInfo, committed_info, get_region_info}
use emulator_momo.Memory.Reserved.Valid.{is_reserved, reserved_length, lookup-Inside}

committed_at-containing :
    (c : CommittedRegionMap) (x : ℕ)
    → committed_at c x
      ≡ elim (containing (λ r. r.length) x c) [ none ↦ none | some e ↦ some e.1.permissions ]
unfolding committed_at containing
committed_at-containing [] x = refl
committed_at-containing ((a, r) ∷ c) x = ground (arith, committed_at-containing c x)

abbrev committed_length : CommittedRegion → ℕ
committed_length r = r.length

-- What is committed, read off the last region that starts at or below the address.
committed_at-last_le :
    (lo hi : ℕ) (c : CommittedRegionMap) (x : ℕ)
    → Regions lo hi c
    → committed_at c x ≡ elim (last_le committed_length x c) [
      | none ↦ none
      | some e ↦ if ltb x (e.0 + e.1.length) then some e.1.permissions else none
    ]
committed_at-last_le lo hi c x w =
    rw (committed_at-containing c x, containing-last_le committed_length x lo hi c w)
      (elim (Option-cases (last_le committed_length x c)) [
        | inl e ↦ rw e
        | inr (d, e) ↦ rw e (ground arith)
      ])

-- What the report says of the mapping at its address.
abbrev pub reported : RegionInfo → Option Permission
reported i = if i.is_committed then some i.permissions else none

committed_info-reported :
    (lo hi : ℕ) (c : CommittedRegionMap) (x : ℕ) (i : RegionInfo)
    → Regions lo hi c
    → hi ≤ top
    → i.is_committed ≡ false
    → (reported (committed_info c x i) ≡ committed_at c x)
      × ((committed_info c x i).is_reserved ≡ i.is_reserved)
unfolding committed_info last_le
committed_info-reported lo hi [] x i w h f = (rw (f, committed_at-last_le lo hi [] x w), refl)
committed_info-reported lo hi ((a, r) ∷ c) x i w h f =
    let spec = committed_at-last_le lo hi ((a, r) ∷ c) x w in
    elim (Option-cases (last_le committed_length x ((a, r) ∷ c))) [
      | inl e ↦ (rw (spec, e, committed_info) (rw f), rw (e, committed_info))
      | inr ((b, s), e) ↦
          let bound = last_le-bounds committed_length x lo hi ((a, r) ∷ c) b s w e in
          let sum = add64-eq b s.length (omega arith) in
          (
            rw (spec, e, committed_info, sum) (ground (arith, f)),
            rw (e, committed_info, sum) (ground arith),
          )
    ]

-- In a valid map the report tells correctly whether an address is reserved and committed, and its permission.
pub get_region_info-reported :
    (m : ReservedRegionMap) (x : ℕ)
    → IsValid m
    → ((get_region_info m x).is_reserved ≡ is_reserved m x)
      × (reported (get_region_info m x) ≡ mapped_at m x)
unfolding get_region_info is_reserved mapped_at containing
get_region_info-reported [] x v = (refl, refl)
get_region_info-reported ((a, r) ∷ m) x v =
    let spec = containing-last_le reserved_length x 0 top ((a, r) ∷ m) v.reserved in
    elim (Option-cases (last_le reserved_length x ((a, r) ∷ m))) [
      | inl e ↦
          (rw (spec, e, get_region_info, is_reserved), rw (spec, e, get_region_info, mapped_at))
      | inr ((b, s), e) ↦
          let bound = last_le-bounds reserved_length x 0 top ((a, r) ∷ m) b s v.reserved e in
          let sum = add64-eq b s.length (omega arith) in
          let inside = lookup-Inside ((a, r) ∷ m) b s v.committed bound.3 in
          let info = λ (i : RegionInfo) (f : i.is_committed ≡ false).
            committed_info-reported b (b + s.length) s.committed x i inside bound.2 f in
          elim (Bool-cases (leb (b + s.length) x)) [
            | inl d ↦
                let past : ltb x (b + s.length) ≡ false = ground arith in
                (
                  rw (spec, e, get_region_info, is_reserved, sum, d, past),
                  rw (spec, e, get_region_info, mapped_at, sum, d, past),
                )
            | inr d ↦
                let within : ltb x (b + s.length) ≡ true = ground arith in
                (
                  rw (spec, e, get_region_info, is_reserved, sum, d, within) (info _ refl).1,
                  rw (spec, e, get_region_info, mapped_at, sum, d, within) (info _ refl).0,
                )
          ]
    ]
