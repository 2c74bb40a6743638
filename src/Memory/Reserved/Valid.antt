-- ===== src/Memory/Reserved/Valid.antt =====
-- src/emulator/memory_manager.cpp: the invariant of the two levels of region maps, what is mapped at an address,
-- and how a list of backend calls changes what the backend has mapped there.
use emulator_momo.Common.{
  ℕ, ◌+◌, ◌≤◌, ◌<◌, ◌≡◌, refl, Bool, true, false, ◌&&◌, ◌∙◌, sym, inl, inr, Option, none, some,
  List, [], ◌∷◌, ◌++◌, arith, lookup, put, ltb, leb, ◌==◌, if◌then◌else◌, add64-eq, Bool-cases,
  Option-cases, All,
}
use emulator_momo.Memory.Spans.{
  Spans, last_le, last_le-bounds, containing, containing-last_le, containing-bounds, containing-put,
  lookup-containing, containing-lookup, put-Spans,
}
use emulator_momo.Memory.Region.{Permission, read_write, CommittedRegionMap, committed_at}
use emulator_momo.Memory.Region.Merge.{Regions}
use emulator_momo.Memory.Reserved.{
  ReservedRegion, ReservedRegionMap, BackendCall, map_mmio, map_memory, unmap_memory,
  apply_protection, find_reserved_region,
}

-- The largest address: no region ends behind it, so the end of a region does not wrap.
abbrev pub top : ℕ
top = 18446744073709551615

abbrev pub reserved_length : ReservedRegion → ℕ
reserved_length r = r.length

-- The committed regions of an entry lie inside the entry, apart from one another.
abbrev pub Inside : ℕ × ReservedRegion → Type 0
Inside (a, r) = Regions a (a + r.length) r.committed

pub record IsValid (m : ReservedRegionMap) : Type 0 where
  pub reserved : Spans reserved_length 0 top m
  pub committed : All Inside m

-- The permission mapped at an address, read off both levels.
unfoldable pub mapped_at : ReservedRegionMap → ℕ → Option Permission
mapped_at m x = elim (containing reserved_length x m) [
  | none ↦ none
  | some e ↦ committed_at e.1.committed x
]

-- Whether an address lies in a reservation.
unfoldable pub is_reserved : ReservedRegionMap → ℕ → Bool
is_reserved m x = elim (containing reserved_length x m) [ none ↦ false | some _ ↦ true ]

-- What one backend call makes of the mapping at the address `x`.
unfoldable pub effect : BackendCall → ℕ → Option Permission → Option Permission
effect (map_mmio a n) x o = if leb a x && ltb x (a + n) then some read_write else o
effect (map_memory a n p) x o = if leb a x && ltb x (a + n) then some p else o
effect (unmap_memory a n) x o = if leb a x && ltb x (a + n) then none else o
effect (apply_protection a n p) x o =
    if leb a x && ltb x (a + n) then elim o [ none ↦ none | some _ ↦ some p ] else o

unfoldable pub replay : List BackendCall → ℕ → Option Permission → Option Permission
replay [] x o = o
replay (c ∷ cs) x o = replay cs x (effect c x o)

pub replay-append :
    (cs ds : List BackendCall) (x : ℕ) (o : Option Permission)
    → replay (cs ++ ds) x o ≡ replay ds x (replay cs x o)
unfolding replay
replay-append [] ds x o = refl
replay-append (c ∷ cs) ds x o = replay-append cs ds x (effect c x o)

-- The lookup of the code finds the region that contains the address.
pub find_reserved_region-containing :
    (m : ReservedRegionMap) (x : ℕ)
    → IsValid m
    → find_reserved_region m x ≡ containing reserved_length x m
unfolding find_reserved_region
find_reserved_region-containing m x v =
    rw (containing-last_le reserved_length x 0 top m v.reserved)
      (elim (Option-cases (last_le reserved_length x m)) [
        | inl h ↦ rw (h, find_reserved_region)
        | inr ((a, r), h) ↦
            let b = last_le-bounds reserved_length x 0 top m a r v.reserved h in
            rw (h, find_reserved_region, add64-eq a r.length (omega arith)) (ground arith)
      ])

-- An entry found and written back with the same length.
module _ (m : ReservedRegionMap) (v : IsValid m) (a : ℕ) (r : ReservedRegion)
    (found : lookup a m ≡ some r) (c : CommittedRegionMap) (w : Regions a (a + r.length) c) where
  abbrev replaced : ReservedRegion
  replaced = record r { committed = c }

  All-put : (m : ReservedRegionMap) → All Inside m → All Inside (put a replaced m)
  unfolding put
  All-put [] h = (w, tt)
  All-put ((b, s) ∷ m) h = ground (arith, All-put m h.1, w)

  pub write_back-IsValid : IsValid (put a (record r { committed = c }) m)
  write_back-IsValid = record {
    reserved = put-Spans reserved_length 0 top a r replaced m v.reserved found refl;
    committed = All-put m v.committed;
  }

  pub mapped_at-write_back :
      (x : ℕ)
      → mapped_at (put a (record r { committed = c }) m) x
        ≡ (if leb a x && ltb x (a + r.length) then committed_at c x else mapped_at m x)
  unfolding mapped_at
  mapped_at-write_back x =
      let e = containing-put reserved_length x 0 top a r replaced m v.reserved found refl in
      rw (e, mapped_at) (ground arith)

pub mapped_at-stored :
    (m : ReservedRegionMap) (a : ℕ) (r : ReservedRegion) (y : ℕ)
    → IsValid m
    → lookup a m ≡ some r
    → a ≤ y
    → y < a + r.length
    → mapped_at m y ≡ committed_at r.committed y
unfolding mapped_at
mapped_at-stored m a r y v l p q =
    rw (containing-lookup reserved_length y 0 top a r m v.reserved l p q, mapped_at)

-- The entry that the lookup returns.
pub record Found (m : ReservedRegionMap) (x a : ℕ) (r : ReservedRegion) : Type 0 where
  pub stored : lookup a m ≡ some r
  pub from : a ≤ x
  pub until : x < a + r.length
  pub below_top : a + r.length ≤ top
  pub inside : Inside (a, r)
  pub mapped : (y : ℕ) → a ≤ y → y < a + r.length → mapped_at m y ≡ committed_at r.committed y

pub lookup-Inside :
    (m : ReservedRegionMap) (a : ℕ) (r : ReservedRegion)
    → All Inside m
    → lookup a m ≡ some r
    → Inside (a, r)
unfolding lookup
lookup-Inside [] a r h e = cc
lookup-Inside ((b, s) ∷ m) a r h e = elim (Bool-cases (b == a)) [
  | inl t ↦ ground (arith, h.0, rw t at e)
  | inr f ↦ lookup-Inside m a r h.1 (rw f at e)
]

pub find-Found :
    (m : ReservedRegionMap) (x a : ℕ) (r : ReservedRegion)
    → IsValid m
    → find_reserved_region m x ≡ some (a, r)
    → Found m x a r
find-Found m x a r v e =
    let c = sym (find_reserved_region-containing m x v) ∙ e in
    let b = containing-bounds reserved_length x 0 top m a r v.reserved c in
    let l = lookup-containing reserved_length x 0 top a r m v.reserved c in
    record {
      stored = l;
      from = b.0;
      until = b.1;
      below_top = b.3;
      inside = lookup-Inside m a r v.committed l;
      mapped = λ y p q. mapped_at-stored m a r y v l p q;
    }

abbrev pub in_range : ℕ → ℕ → ℕ → Bool
in_range address end x = leb address x && ltb x end

-- Writing back a committed map that differs from the old one by `f` inside a range of the entry.
module _ (m : ReservedRegionMap) (address end a : ℕ) (r : ReservedRegion) (c : CommittedRegionMap)
    (f : Option Permission → Option Permission) (v : IsValid m) (found : Found m address a r)
    (fits : end ≤ a + r.length) (w : Regions a (a + r.length) c)
    (spec : (x : ℕ)
      → committed_at c x ≡ (
          if in_range address end x
          then f (committed_at r.committed x)
          else committed_at r.committed x)) where
  pub mapped_at-range :
      (x : ℕ)
      → mapped_at (put a (record r { committed = c }) m) x
        ≡ (if in_range address end x then f (mapped_at m x) else mapped_at m x)
  mapped_at-range x =
      rw (mapped_at-write_back m v a r found.stored c w x)
        (ground (arith, spec x, found.from, found.mapped x))

pub stored_below_top :
    (m : ReservedRegionMap) (a : ℕ) (r : ReservedRegion)
    → IsValid m
    → lookup a m ≡ some r
    → 0 < r.length
    → a + r.length ≤ top
stored_below_top m a r v l n =
    let c =
      containing-lookup reserved_length a 0 top a r m v.reserved l (omega arith) (omega arith) in
    (containing-bounds reserved_length a 0 top m a r v.reserved c).3
