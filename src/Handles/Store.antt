-- ===== src/Handles/Store.antt =====
-- src/windows-emulator/handles.hpp: `handle_store`, a map from indices to objects.
pub mod FreeIndex
pub mod Laws
use emulator_momo.Common.{
  ℕ, zero, suc, ◌+◌, ◌*◌, ◌/◌, ◌%◌, ◌^◌, Bool, true, false, not, ◌||◌, Option, none, some, Dict,
  lookup, put, emplace, erase, length, ◌==◌, if◌then◌else◌, u32_mod, Result, ok, thrown,
}
use emulator_momo.Handles.Value.{HandleType, HandleValue, type_code, to_bits, get_handle_value}

-- The members of a store.
pub record HandleStore (V : Type 0) : Type 0 where
  pub block_mutation : Bool
  pub entries : Dict V

-- The template's parameters. A type with no `deleter` has one that agrees at once.
pub record StoreKind (V : Type 0) : Type 0 where
  pub kind : HandleType
  pub index_shift : ℕ
  pub deleter : V → Bool × V

-- The search for a free index: the loop ends at an index that is not in the map, or at 0 after the
-- 32-bit index has wrapped. As many rounds as the map has entries, and one more, are enough.
unfoldable pub free_index_loop {ℓ} : {V : Type ℓ} → ℕ → ℕ → Dict V → ℕ
free_index_loop zero index m = index
free_index_loop (suc fuel) index m =
    let next = free_index_loop fuel ((index + 1) % u32_mod) m in
    if index == 0 then index else elim (lookup index m) [ none ↦ index | some _ ↦ next ]

unfoldable pub find_free_index {ℓ} : {V : Type ℓ} → Dict V → ℕ
unfolding free_index_loop
find_free_index m = free_index_loop (length m + 1) 1 m

-- `index << IndexShift` on 32 bits, and `id >> IndexShift`
unfoldable pub shift_left : ℕ → ℕ → ℕ
shift_left index s = index * 2 ^ s % u32_mod

unfoldable pub shift_right : ℕ → ℕ → ℕ
shift_right id s = id / 2 ^ s

module _ {V : Type 0} (k : StoreKind V) where
  pub make_handle : ℕ → ℕ
  make_handle index = to_bits (record {
    id = shift_left index k.index_shift;
    kind = type_code k.kind;
    padding = 0;
    is_system = false;
    is_pseudo = false;
  })

  -- The index that a handle names; `none` is `store_.end()` of the first test.
  unfoldable pub index_of : HandleValue → Option ℕ
  index_of h =
      if not (h.kind == type_code k.kind) || h.is_pseudo
      then none
      else some (shift_right h.id k.index_shift)

  unfoldable pub get : HandleStore V → ℕ → Option V
  unfolding index_of
  get s h = elim (index_of (get_handle_value h)) [ none ↦ none | some i ↦ lookup i s.entries ]

  pub store : HandleStore V → V → Result (ℕ × HandleStore V)
  store s v =
      let index = find_free_index s.entries in
      if s.block_mutation
      then thrown
      else ok (make_handle index, record s { entries = emplace index v s.entries })

  -- A deleter that refuses has changed the object all the same.
  unfoldable pub erase_at : HandleStore V → ℕ → V → Bool × HandleStore V
  erase_at s i v =
      let (agreed, v') = k.deleter v in
      if agreed
      then (true, record s { entries = erase i s.entries })
      else (false, record s { entries = put i v' s.entries })

  unfoldable pub erase_entry : HandleStore V → Option ℕ → Bool × HandleStore V
  erase_entry s none = (false, s)
  erase_entry s (some i) = elim (lookup i s.entries) [ none ↦ (false, s) | some v ↦ erase_at s i v ]

  pub erase_handle : HandleStore V → ℕ → Result (Bool × HandleStore V)
  unfolding erase_at erase_entry
  erase_handle s h =
      if s.block_mutation then thrown else ok (erase_entry s (index_of (get_handle_value h)))

-- Returns the old value of the flag.
pub block_mutation : {V : Type 0} → HandleStore V → Bool → Bool × HandleStore V
block_mutation s blocked = (s.block_mutation, record s { block_mutation = blocked })
