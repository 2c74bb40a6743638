-- ===== src/Memory/Region.antt =====
-- src/emulator/memory_manager.cpp: a committed region, and the loops that split and merge the map of
-- the committed regions of one reservation.
pub mod Merge
pub mod Cut
pub mod Rounds
pub mod Split
use emulator_momo.Common.{
  ℕ, zero, suc, ◌+◌, Bool, false, not, ◌&&◌, ◌||◌, Option, none, some, List, [], ◌∷◌, Dict, put,
  ltb, leb, ◌==◌, if◌then◌else◌, add64, sub64, length,
}
use emulator_momo.Memory.Address.{is_within_start_and_length}

-- A set of access rights: the bits 1 (read), 2 (write) and 4 (exec) of `memory_permission`.
abbrev pub Permission : Type 0
Permission = ℕ

abbrev pub no_access : Permission
no_access = 0

abbrev pub read_write : Permission
read_write = 3

pub record CommittedRegion : Type 0 where
  pub length : ℕ
  pub permissions : Permission

abbrev pub CommittedRegionMap : Type 0
CommittedRegionMap = Dict CommittedRegion

-- One round of the inner loop: the region `i` at `first`, the split point `p`, and what follows
-- the region in the map.
unfoldable pub cut_at :
    ℕ → ℕ → CommittedRegion → CommittedRegionMap → CommittedRegion × CommittedRegionMap
cut_at first p i rest =
    let first_length = sub64 p first in
    let second = record i { length = sub64 i.length first_length } in
    if is_within_start_and_length p first i.length && not (first == p)
    then (record i { length = first_length }, put p second rest)
    else (i, rest)

-- The loop over the split points.
unfoldable pub split_at :
    ℕ → List ℕ → CommittedRegion → CommittedRegionMap → CommittedRegion × CommittedRegionMap
split_at first [] i rest = (i, rest)
split_at first (p ∷ ps) i rest =
    let (i', rest') = cut_at first p i rest in split_at first ps i' rest'

-- The loop over the map: an entry that is put in behind the iterator is visited too. Each split
-- point makes one entry at most, so `length m + length points` rounds are enough.
unfoldable pub split_loop : ℕ → List ℕ → CommittedRegionMap → CommittedRegionMap
split_loop zero points m = m
split_loop (suc fuel) points [] = []
split_loop (suc fuel) points ((first, r) ∷ m) =
    let (r', m') = split_at first points r m in (first, r') ∷ split_loop fuel points m'

unfoldable pub split_regions : CommittedRegionMap → List ℕ → CommittedRegionMap
unfolding split_loop split_at cut_at
split_regions m points = split_loop (length m + length points) points m

-- The rest of the merge loop, with the iterator at the region `r` that starts at `first`.
unfoldable pub merge_from : ℕ → CommittedRegion → CommittedRegionMap → CommittedRegionMap
merge_from first r [] = (first, r) ∷ []
merge_from first r ((next, s) ∷ m) =
    let apart = not (add64 first r.length == next) || not (r.permissions == s.permissions) in
    let keep = (first, r) ∷ merge_from next s m in
    let join = merge_from first (record r { length = add64 r.length s.length }) m in
    if apart then keep else join

unfoldable pub merge_regions : CommittedRegionMap → CommittedRegionMap
unfolding merge_from
merge_regions [] = []
merge_regions ((first, r) ∷ m) = merge_from first r m

-- The permission that is committed at an address, if the address is committed.
unfoldable pub committed_at : CommittedRegionMap → ℕ → Option Permission
committed_at [] x = none
committed_at ((a, r) ∷ m) x =
    if leb a x && ltb x (a + r.length) then some r.permissions else committed_at m x

-- An address lies strictly inside a region.
abbrev pub inside : ℕ → ℕ → CommittedRegion → Bool
inside p a r = ltb a p && ltb p (a + r.length)

unfoldable pub straddled : ℕ → CommittedRegionMap → Bool
straddled p [] = false
straddled p ((a, r) ∷ m) = inside p a r || straddled p m
