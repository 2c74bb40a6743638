-- ===== src/Modules/Relocations/Ends.antt =====
-- src/windows-emulator/module/module_mapping.cpp: the loop of `apply_relocations` ends.
use emulator_momo.Common.{
  ℕ, zero, suc, ◌+◌, ◌%◌, ◌≤◌, ◌<◌, ◌≡◌, refl, ap, inl, inr, Bool, false, ◌||◌, length, ltb, ◌==◌,
  Bool-cases, sub64, u32_mod, some, Result, ok, thrown, bind_ok, ok_injective, Result-cases, arith,
}
use emulator_momo.Serialization.Buffer.{Bytes}
use emulator_momo.Modules.Accessor.{get_object}
use emulator_momo.Modules.Headers.{
  Directory, BaseRelocation, sizeof_base_relocation, get_relocation,
}
use emulator_momo.Modules.Relocations.{
  apply_entries, entry_count, entries_of, is_last, apply_blocks, apply_relocations,
}
use emulator_momo.Modules.Relocations.Bounds.{get_object_bounds, apply_entries_bounds}

-- The header of a block lies in the image, and its size is a `DWORD`.
get_relocation_bounds :
    (os_windows : Bool) (offset : ℕ) (buffer : Bytes) (r : BaseRelocation)
    → offset < u32_mod
    → get_relocation os_windows offset buffer ≡ ok r
    → (offset + sizeof_base_relocation os_windows ≤ length buffer) × (r.size_of_block < u32_mod)
unfolding get_relocation sizeof_base_relocation
get_relocation_bounds os_windows offset buffer r small e =
    let (o, eo, e') =
      bind_ok (get_object (sizeof_base_relocation os_windows) offset 0 buffer) _ r e in
    let size_eq = ap (λ (x : BaseRelocation). x.size_of_block) (ok_injective e') in
    let b =
      get_object_bounds (sizeof_base_relocation os_windows) offset 0 buffer o (ground arith) eo in
    (ground (arith, b), omega (arith, size_eq))

module _ (os_windows : Bool) (delta relocation_end : ℕ) where
  -- A block that was applied lies in the image, so the next one starts behind it and at most one byte
  -- behind the image.
  next_block :
      (offset : ℕ) (buffer buffer' : Bytes) (r : BaseRelocation)
      → offset < u32_mod
      → get_relocation os_windows offset buffer ≡ ok r
      → is_last os_windows r ≡ false
      → apply_entries delta r.virtual_address
          (entries_of os_windows offset)
          (entry_count os_windows r)
          0
          buffer
        ≡ ok buffer'
      → (length buffer' ≡ length buffer)
        × (offset < offset + r.size_of_block)
        × (offset + r.size_of_block ≤ length buffer + 1)
  unfolding is_last entries_of entry_count sizeof_base_relocation
  next_block offset buffer buffer' r small e l a =
      let head = get_relocation_bounds os_windows offset buffer r small e in
      let inside =
        apply_entries_bounds delta r.virtual_address (entries_of os_windows offset)
          (entry_count os_windows r) 0 buffer buffer' (ground (arith, head)) a in
      (inside.0, ground arith, ground (arith, head, inside.1))

  apply_blocks_ends :
      (rounds offset : ℕ) (buffer : Bytes)
      → offset < u32_mod
      → length buffer + 2 ≤ u32_mod
      → 0 < rounds
      → length buffer + 2 ≤ offset + rounds
      → (r : Result Bytes) × (apply_blocks os_windows rounds delta offset relocation_end buffer
          ≡ some r)
  unfolding apply_blocks
  apply_blocks_ends zero offset buffer small image some_rounds enough = absurd (omega arith)
  apply_blocks_ends (suc rounds) offset buffer small image some_rounds enough =
      elim (Bool-cases (ltb offset relocation_end)) [
        | inr behind ↦ (ok buffer, rw (apply_blocks, behind) refl)
        | inl before ↦ elim (Result-cases (get_relocation os_windows offset buffer)) [
          | inl e ↦ (thrown, rw (apply_blocks, before, e) refl)
          | inr (r, e) ↦ elim (Bool-cases (is_last os_windows r)) [
            | inl l ↦ (ok buffer, rw (apply_blocks, before, e, l) refl)
            | inr l ↦
                elim (Result-cases (
                  apply_entries delta r.virtual_address (entries_of os_windows offset)
                    (entry_count os_windows r) 0 buffer)) [
                      | inl a ↦ (thrown, rw (apply_blocks, before, e, l, a) refl)
                      | inr (buffer', a) ↦
                          let n = next_block offset buffer buffer' r small e l a in
                          let rest =
                            apply_blocks_ends rounds ((offset + r.size_of_block) % u32_mod) buffer'
                              (omega arith) (omega (arith, n.0)) (omega (arith, n.1, n.2))
                              (omega (arith, n.0, n.1, n.2)) in
                          (rest.0, rw (apply_blocks, before, e, l, a) rest.1)
                    ]
          ]
        ]
      ]

-- On an image that is at least two bytes smaller than 4 GB the relocations end in the rounds that the
-- mapping gives them: a round for each byte of the image and two more.
pub apply_relocations_ends :
    (os_windows : Bool) (image_base preferred_base : ℕ) (directory : Directory) (buffer : Bytes)
    → directory.virtual_address < u32_mod
    → length buffer + 2 ≤ u32_mod
    → (r : Result Bytes) × (apply_relocations os_windows
          (suc (suc (length buffer)))
          image_base
          preferred_base
          directory
          buffer
        ≡ some r)
unfolding apply_relocations
apply_relocations_ends os_windows image_base preferred_base directory buffer small image =
    elim (Bool-cases (sub64 image_base preferred_base == 0 || directory.size == 0)) [
      | inl nothing ↦ (ok buffer, rw (apply_relocations, nothing) refl)
      | inr more ↦ rw more (
          apply_blocks_ends os_windows (sub64 image_base preferred_base)
            ((directory.virtual_address + directory.size) % u32_mod) (suc (suc (length buffer)))
            directory.virtual_address buffer small image (omega arith) (omega arith))
    ]
