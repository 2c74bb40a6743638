-- ===== src/Memory/Manager/Release.antt =====
-- src/emulator/memory_manager.cpp: what `release_memory` frees, and what is left of the reservation.
use emulator_momo.Common.{
  ℕ, ◌+◌, ◌-◌, ◌≤◌, ◌<◌, ◌≡◌, refl, Bool, true, false, ◌&&◌, ◌∙◌, sym, inl, inr, none, some, List,
  [], ◌∷◌, arith, lookup, put, erase, ltb, leb, ◌==◌, if◌then◌else◌, add64-eq, sub64-eq, u64_mod,
  Bool-cases, ok, Returns, subst, ltb→lt,
}
use emulator_momo.Memory.Region.{CommittedRegionMap, committed_at, straddled, split_regions}
use emulator_momo.Memory.Region.Merge.{Regions-from, committed_at-below, Regions}
use emulator_momo.Memory.Region.Rounds.{straddled_below}
use emulator_momo.Memory.Region.Split.{IsSplit, split_regions-IsSplit}
use emulator_momo.Memory.Reserved.{ReservedRegion, ReservedRegionMap, BackendCall, Outcome}
use emulator_momo.Memory.Manager.{unmap_loop}
use emulator_momo.Memory.Reserved.Valid.{top, is_reserved, IsValid, mapped_at, replay, in_range}
use emulator_momo.Memory.SpansErase.{
  erase-Spans, containing-erase, move-Spans, containing-move, All-move, All-erase,
}
use emulator_momo.Memory.Manager.{release_memory}
use emulator_momo.Memory.Manager.Decommit.{unmap_loop-Regions, unmap_loop-at, unmap_loop-replay}
use emulator_momo.Memory.Reserved.Valid.{
  Inside, stored_below_top, reserved_length, lookup-Inside, mapped_at-stored,
}
use emulator_momo.Memory.Spans.{containing, containing-lookup, lookup-nonempty}

-- What a release of the range [address, end) promises on a valid map `m`.
pub record Released (m : ReservedRegionMap) (address end : ℕ) (o : Outcome Bool) : Type 0 where
  pub succeeded : o.value ≡ true
  pub valid : IsValid o.regions
  pub mapped :
      (x : ℕ) → mapped_at o.regions x ≡ (if in_range address end x then none else mapped_at m x)
  pub reserved :
      (x : ℕ)
      → is_reserved o.regions x ≡ (if in_range address end x then false else is_reserved m x)
  pub mirrored : (x : ℕ) → replay o.calls x (mapped_at m x) ≡ mapped_at o.regions x

-- A release of `size` bytes, already chosen, from the start of the entry `r` at `a`.
module _ (m : ReservedRegionMap) (a size : ℕ) (r : ReservedRegion) (v : IsValid m)
    (found : lookup a m ≡ some r) (some_size : 0 < size) (fits : size ≤ r.length) where
  abbrev end : ℕ
  end = a + size

  abbrev pieces : CommittedRegionMap
  pieces = split_regions r.committed (end ∷ [])

  abbrev looped : CommittedRegionMap × List BackendCall
  looped = unmap_loop a end pieces

  abbrev left : ReservedRegion
  left = record r { length = r.length - size; committed = looped.0 }

  inside : Inside (a, r)
  inside = lookup-Inside m a r v.committed found

  below_mod : a + r.length < u64_mod
  below_mod = omega (arith, stored_below_top m a r v found)

  is_split : IsSplit a (a + r.length) (end ∷ []) r.committed pieces
  is_split = split_regions-IsSplit a (a + r.length) (end ∷ []) r.committed below_mod inside

  start_clear : straddled a pieces ≡ false
  start_clear = straddled_below a a (a + r.length) pieces is_split.regions (omega arith)

  looped-at :
      (x : ℕ)
      → committed_at looped.0 x ≡ (if in_range a end x then none else committed_at r.committed x)
  looped-at x =
      unmap_loop-at a end a (a + r.length) pieces x is_split.regions below_mod start_clear
        is_split.clear.0
      ∙ rw (is_split.same x)

  looped-Regions : Regions a (a + r.length) looped.0
  looped-Regions = unmap_loop-Regions a end a (a + r.length) pieces is_split.regions

  -- Nothing is left below the end of the release.
  looped_above : Regions end (a + r.length) looped.0
  looped_above = Regions-from a end (a + r.length) looped.0 looped-Regions (omega arith) (λ x h.
      rw (looped-at x) (ground (arith, committed_at-below x a (a + r.length) r.committed inside)))

  -- The rest of the reservation, after a release of a part of it.
  left-Inside : size < r.length → Inside (end, left)
  left-Inside part = subst (λ z. Regions end z looped.0) (omega arith) looped_above

  module _ (part : size < r.length) where
    rest-IsValid : IsValid (erase a (put end left m))
    rest-IsValid = record {
      reserved =
          move-Spans reserved_length a end r left (omega arith) (omega arith) (omega arith) 0 top m
            v.reserved found;
      committed =
          All-move reserved_length a end r left (omega arith) (omega arith) (omega arith) Inside 0
            top m v.reserved found (left-Inside part) v.committed;
    }

    rest-containing :
        (x : ℕ)
        → containing reserved_length x (erase a (put end left m)) ≡ (
            if leb a x && ltb x (a + r.length)
            then (if ltb x end then none else some (end, left))
            else containing reserved_length x m)
    rest-containing x =
        containing-move reserved_length a end r left (omega arith) (omega arith) (omega arith) x 0
          top m v.reserved found

    part-mapped :
        (x : ℕ)
        → mapped_at (erase a (put end left m)) x
          ≡ (if in_range a end x then none else mapped_at m x)
    unfolding mapped_at
    part-mapped x =
        rw (rest-containing x, mapped_at)
          (ground (arith, mapped_at-stored m a r x v found, looped-at x))

    part-reserved :
        (x : ℕ)
        → is_reserved (erase a (put end left m)) x
          ≡ (if in_range a end x then false else is_reserved m x)
    unfolding is_reserved
    part-reserved x =
        rw (rest-containing x, is_reserved)
          (ground (arith, containing-lookup reserved_length x 0 top a r m v.reserved found))

  module _ (whole : size ≡ r.length) where
    whole-IsValid : IsValid (erase a m)
    whole-IsValid = record {
      reserved = erase-Spans reserved_length 0 top a r m v.reserved found;
      committed = All-erase reserved_length Inside a m v.committed;
    }

    whole-mapped :
        (x : ℕ) → mapped_at (erase a m) x ≡ (if in_range a end x then none else mapped_at m x)
    unfolding mapped_at
    whole-mapped x =
        rw (containing-erase reserved_length x 0 top a r m v.reserved found, mapped_at)
          (ground arith)

    whole-reserved :
        (x : ℕ) → is_reserved (erase a m) x ≡ (if in_range a end x then false else is_reserved m x)
    unfolding is_reserved
    whole-reserved x =
        rw (containing-erase reserved_length x 0 top a r m v.reserved found, is_reserved)
          (ground arith)

  abbrev outcome : ReservedRegionMap → Outcome Bool
  outcome regions = record { value = true; regions = regions; calls = looped.1 }

  looped-mirrored :
      (x : ℕ)
      → replay looped.1 x (mapped_at m x) ≡ (if in_range a end x then none else mapped_at m x)
  looped-mirrored x =
      let here : in_range a end x ≡ true → mapped_at m x ≡ committed_at pieces x = λ e.
        mapped_at-stored m a r x v found (ground arith) (ground arith) ∙ sym (is_split.same x) in
      unmap_loop-replay a end a (a + r.length) pieces x (mapped_at m x) is_split.regions below_mod
        start_clear is_split.clear.0 here

  release_run :
      (size₀ : ℕ)
      → (if size₀ == 0 then r.length else size₀) ≡ size
      → release_memory m a size₀
        ≡ ok (outcome (if ltb size r.length then erase a (put end left m) else erase a m))
  unfolding release_memory
  release_run size₀ e =
      let s1 = add64-eq a size (omega (arith, below_mod)) in
      let s2 = sub64-eq r.length size fits (omega (arith, below_mod)) in
      rw (found, release_memory, e, s1, s2) (ground arith)

  release_part :
      Released m a end (outcome (if ltb size r.length then erase a (put end left m) else erase a m))
  release_part = elim (Bool-cases (ltb size r.length)) [
    | inl e ↦
        let part = ltb→lt size r.length e in
        rw e (record {
          succeeded = refl;
          valid = rest-IsValid part;
          mapped = part-mapped part;
          reserved = part-reserved part;
          mirrored = λ x. looped-mirrored x ∙ sym (part-mapped part x);
        })
    | inr e ↦
        let whole : size ≡ r.length = ground arith in
        rw e (record {
          succeeded = refl;
          valid = whole-IsValid whole;
          mapped = whole-mapped whole;
          reserved = whole-reserved whole;
          mirrored = λ x. looped-mirrored x ∙ sym (whole-mapped whole x);
        })
  ]

-- The size that a release frees: 0 stands for the whole entry.
abbrev pub released_size : ℕ → ReservedRegion → ℕ
released_size size₀ r = if size₀ == 0 then r.length else size₀

-- A release from the start of a reservation of a valid map, of the whole or of a front part, frees exactly these
-- addresses in the map and in the backend, and leaves every other one reserved and mapped as it was.
pub release_memory-Released :
    (m : ReservedRegionMap) (a size₀ : ℕ) (r : ReservedRegion)
    → IsValid m
    → lookup a m ≡ some r
    → released_size size₀ r ≤ r.length
    → Returns (release_memory m a size₀) (Released m a (a + released_size size₀ r))
release_memory-Released m a size₀ r v found fits =
    let size = released_size size₀ r in
    let some_size : 0 < size =
      ground (arith, lookup-nonempty reserved_length 0 top a r m v.reserved found) in
    (
      _,
      release_run m a size r v found some_size fits size₀ refl,
      release_part m a size r v found some_size fits,
    )
