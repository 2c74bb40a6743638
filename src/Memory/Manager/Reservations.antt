-- ===== src/Memory/Manager/Reservations.antt =====
-- src/emulator/memory_manager.cpp: a protection leaves the reservations as they are, for any range.
use emulator_momo.Common.{
  some, ◌∙◌, sym, lookup, lookup-put, ◌==◌, ==→eq, ℕ, ◌+◌, ◌≡◌, refl, ap, subst, inl, inr, Bool,
  Option, [], ◌∷◌, arith, put, add64, ltb, u64_mod, ◌<◌, Bool-cases, Option-cases, ok, ok_injective,
}
use emulator_momo.Memory.Spans.{containing-put, containing-lookup}
use emulator_momo.Memory.Region.{Permission, CommittedRegionMap}
use emulator_momo.Memory.Region.Split.{split_regions-IsSplit}
use emulator_momo.Memory.Region.Merge.{Regions, merge_regions-Regions}
use emulator_momo.Memory.Reserved.{ReservedRegion, ReservedRegionMap, Outcome, find_reserved_region}
use emulator_momo.Memory.Reserved.Valid.{
  top, IsValid, Found, find-Found, is_reserved, reserved_length, write_back-IsValid,
}
use emulator_momo.Memory.Manager.{protect_memory}
use emulator_momo.Memory.Manager.Protect.{protect_loop-Regions}

-- A valid map with the reserved addresses of another one, and entries of the same lengths.
--
pub record SameReserved (m m' : ReservedRegionMap) : Type 0 where
  pub valid : IsValid m'
  pub same : (x : ℕ) → is_reserved m' x ≡ is_reserved m x
  pub entries :
      (b : ℕ) (r : ReservedRegion)
      → lookup b m ≡ some r
      → (r' : ReservedRegion) × (lookup b m' ≡ some r') × (r'.length ≡ r.length)

put-entries :
    (m : ReservedRegionMap) (a : ℕ) (r : ReservedRegion) (c : CommittedRegionMap)
    → lookup a m ≡ some r
    → (b : ℕ) (q : ReservedRegion) → lookup b m ≡ some q
    → (q' : ReservedRegion) × (lookup b (put a (record r { committed = c }) m) ≡ some q')
      × (q'.length ≡ q.length)
put-entries m a r c stored b q e = elim (Bool-cases (a == b)) [
  | inl here ↦
      let same : some r ≡ some q =
        sym stored ∙ subst (λ k. lookup k m ≡ some q) (sym (==→eq a b here)) e in
      let equal : r ≡ q = cc same in
      (
        record r { committed = c },
        lookup-put a b (record r { committed = c }) m ∙ rw here,
        ap (λ (x : ReservedRegion). x.length) equal,
      )
  | inr other ↦ (q, rw (lookup-put a b (record r { committed = c }) m, other) e, refl)
]

write_back-SameReserved :
    (m : ReservedRegionMap) (a : ℕ) (r : ReservedRegion) (address : ℕ) (c : CommittedRegionMap)
    → IsValid m
    → Found m address a r
    → Regions a (a + r.length) c
    → SameReserved m (put a (record r { committed = c }) m)
unfolding is_reserved
write_back-SameReserved m a r address c v found w = record {
  valid = write_back-IsValid m v a r found.stored c w;
  same = λ x.
      let stored = found.stored in
      let before = containing-lookup reserved_length x 0 top a r m v.reserved stored in
      let after =
        containing-put reserved_length x 0 top a r (record r { committed = c }) m v.reserved stored
          refl in
      rw (after, is_reserved) (ground (arith, before));
  entries = put-entries m a r c found.stored;
}

pub protect_memory-SameReserved :
    (m : ReservedRegionMap) (address size : ℕ) (p : Permission)
    (o : Outcome (Bool × Option Permission))
    → IsValid m
    → protect_memory m address size p ≡ ok o
    → SameReserved m o.regions
unfolding protect_memory
protect_memory-SameReserved m address size p o v e =
    elim (Option-cases (find_reserved_region m address)) [
      | inl f ↦
          let e' = rw (protect_memory, f) at e in
          subst (SameReserved m)
            (ap (λ (x : Outcome (Bool × Option Permission)). x.regions) (ok_injective e'))
            (record { valid = v; same = λ x. refl; entries = λ b r h. (r, h, refl) })
      | inr ((a, r), f) ↦
          let found = find-Found m address a r v f in
          let small : a + r.length < u64_mod = omega (arith, found.below_top) in
          let split =
            split_regions-IsSplit a (a + r.length) (address ∷ add64 address size ∷ []) r.committed
              small found.inside in
          let looped =
            protect_loop-Regions address (add64 address size) p a (a + r.length) _ split.regions in
          let merged = merge_regions-Regions a (a + r.length) _ small looped in
          elim (Bool-cases (ltb (add64 a r.length) (add64 address size))) [
            | inl g ↦ let e' = rw (protect_memory, f, g) at e in absurd (cc e')
            | inr g ↦
                let e' = rw (protect_memory, f, g) at e in
                subst (SameReserved m)
                  (ap (λ (x : Outcome (Bool × Option Permission)). x.regions) (ok_injective e'))
                  (write_back-SameReserved m a r address _ v found merged)
          ]
    ]
