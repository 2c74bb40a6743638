-- ===== src/Modules/Relocations.antt =====
-- src/windows-emulator/module/module_mapping.cpp: `apply_relocation` and `apply_relocations`.
pub mod Bounds
pub mod Ends
pub mod Value
use emulator_momo.Common.{
  ℕ, zero, suc, ◌+◌, ◌-◌, ◌/◌, ◌%◌, Bool, true, false, ◌||◌, List, ltb, leb, ◌==◌, if◌then◌else◌,
  sub64, u32_mod, u64_mod, Option, none, some, Result, ok, thrown, ◌>>=◌,
}
use emulator_momo.Serialization.Buffer.{Bytes, to_bytes}
use emulator_momo.Modules.Accessor.{get_number, set_object}
use emulator_momo.Modules.Headers.{
  Directory, BaseRelocation, sizeof_base_relocation, get_relocation,
}

abbrev pub image_rel_based_absolute : ℕ
image_rel_based_absolute = 0

abbrev pub image_rel_based_highlow : ℕ
image_rel_based_highlow = 3

abbrev pub image_rel_based_dir64 : ℕ
image_rel_based_dir64 = 10

-- `apply_relocation<T>` for a `T` of `size` bytes, whose values are below `bound`
unfoldable pub apply_relocation : ℕ → ℕ → ℕ → ℕ → Bytes → Result Bytes
unfolding get_number set_object to_bytes
apply_relocation size bound offset delta buffer = get_number size offset 0 buffer >>= λ value.
    set_object (to_bytes size ((value + delta % bound) % bound)) offset 0 buffer

-- The switch on the type of an entry.
unfoldable pub apply_entry : ℕ → ℕ → ℕ → Bytes → Result Bytes
unfolding apply_relocation
apply_entry delta virtual_address entry buffer =
    let type = entry / 0x1000 in
    let total_offset = (virtual_address + entry % 0x1000) % u32_mod in
    if type == image_rel_based_absolute
    then ok buffer
    else if type == image_rel_based_highlow
    then apply_relocation 4 u32_mod total_offset delta buffer
    else if type == image_rel_based_dir64
    then apply_relocation 8 u64_mod total_offset delta buffer
    else thrown

-- The loop over the entries of a block, from the index `i` on; `entries` is where they start.
unfoldable pub apply_entries : ℕ → ℕ → ℕ → ℕ → ℕ → Bytes → Result Bytes
unfolding apply_entry
apply_entries delta virtual_address entries zero i buffer = ok buffer
apply_entries delta virtual_address entries (suc rounds) i buffer = do
  entry ← get_number 2 entries i buffer
  buffer' ← apply_entry delta virtual_address entry buffer
  apply_entries delta virtual_address entries rounds (i + 1) buffer'

-- `os_windows` tells which declaration of `IMAGE_BASE_RELOCATION` the build has.
module _ (os_windows : Bool) where
  -- The number of entries of a block, and where they start.
  unfoldable pub entry_count : BaseRelocation → ℕ
  unfolding sizeof_base_relocation
  entry_count r = (r.size_of_block - sizeof_base_relocation os_windows) / 2

  unfoldable pub entries_of : ℕ → ℕ
  unfolding sizeof_base_relocation
  entries_of relocation_offset = relocation_offset + sizeof_base_relocation os_windows

  -- `relocation.VirtualAddress <= 0 || relocation.SizeOfBlock <= sizeof(IMAGE_BASE_RELOCATION)`
  unfoldable pub is_last : BaseRelocation → Bool
  unfolding sizeof_base_relocation
  is_last r = r.virtual_address == 0 || leb r.size_of_block (sizeof_base_relocation os_windows)

  -- The loop over the blocks. The offset is a `DWORD` and wraps around. `none` means that the rounds
  -- are used up.
  unfoldable pub apply_blocks : ℕ → ℕ → ℕ → ℕ → Bytes → Option (Result Bytes)
  unfolding get_relocation is_last apply_entries entry_count entries_of
  apply_blocks zero delta relocation_offset relocation_end buffer = none
  apply_blocks (suc rounds) delta relocation_offset relocation_end buffer =
      elim (ltb relocation_offset relocation_end) [
        | false ↦ some (ok buffer)
        | true ↦ elim (get_relocation os_windows relocation_offset buffer) [
          | thrown ↦ some thrown
          | ok r ↦ elim (is_last r) [
            | true ↦ some (ok buffer)
            | false ↦
                elim (apply_entries delta r.virtual_address (entries_of relocation_offset)
                  (entry_count r) 0 buffer) [
                    | thrown ↦ some thrown
                    | ok buffer' ↦
                        apply_blocks rounds delta ((relocation_offset + r.size_of_block) % u32_mod)
                          relocation_end buffer'
                  ]
          ]
        ]
      ]

  -- `apply_relocations`. `none` means that the rounds are used up.
  unfoldable pub apply_relocations : ℕ → ℕ → ℕ → Directory → Bytes → Option (Result Bytes)
  unfolding apply_blocks
  apply_relocations rounds image_base preferred_base directory buffer =
      let delta = sub64 image_base preferred_base in
      let relocation_end = (directory.virtual_address + directory.size) % u32_mod in
      if delta == 0 || directory.size == 0
      then some (ok buffer)
      else apply_blocks rounds delta directory.virtual_address relocation_end buffer
