-- ===== src/Allocator.antt =====
-- src/windows-emulator/emulator_utils.hpp: `emulator_allocator`, which hands out guest memory from a
-- block, one piece after another.
pub mod Pieces
use emulator_momo.Common.{
  ℕ, zero, suc, ◌+◌, ◌*◌, ◌%◌, Bool, true, false, not, ◌||◌, List, [], ◌∷◌, length, ltb, ◌==◌,
  if◌then◌else◌, add64, Result, ok, thrown, ◌>>=◌,
}
use emulator_momo.Memory.Address.{align_up}

-- `emulator_allocator` without its pointer to the emulator.
pub record Allocator : Type 0 where
  pub address : ℕ
  pub size : ℕ
  pub active_address : ℕ

-- `emulator_allocator(emu, address, size)`
pub allocator : ℕ → ℕ → Allocator
allocator address size = record { address = address; size = size; active_address = address }

-- The start of the piece, and the allocator after it.
pub reserve : Allocator → ℕ → ℕ → Result (ℕ × Allocator)
reserve a count alignment =
    let potential_start = align_up a.active_address alignment in
    let potential_end = add64 potential_start count in
    let total_end = add64 a.address a.size in
    if ltb total_end potential_end
    then thrown
    else ok (potential_start, record a { active_address = potential_end })

-- `UNICODE_STRING`
pub record UnicodeString : Type 0 where
  pub length : ℕ
  pub maximum_length : ℕ
  pub buffer : ℕ

-- A call of `write_memory`: an address and the 16-bit units that are written there.
pub record MemoryWrite : Type 0 where
  pub address : ℕ
  pub units : List ℕ

-- The string, the writes in their order, and the allocator.
unfoldable pub make_unicode_string :
    Allocator → List ℕ → Result (UnicodeString × List MemoryWrite × Allocator)
make_unicode_string a str =
    let total_length = length str * 2 in
    reserve a (total_length + 2) 2 >>= λ r. ok (
      record {
        length = total_length % 65536;
        maximum_length = (total_length + 2) % 65536;
        buffer = r.0;
      },
      record { address = r.0; units = str }
          ∷ record { address = add64 r.0 total_length; units = 0 ∷ [] }
          ∷ [],
      r.1,
    )

-- The address of the characters.
unfoldable pub copy_string : Allocator → List ℕ → Result (ℕ × List MemoryWrite × Allocator)
copy_string a str = make_unicode_string a str >>= λ r. ok (r.0.buffer, r.1, r.2)

-- The call of `release_memory`, if any: its address and its size.
pub release : Allocator → List (ℕ × ℕ) × Allocator
release a =
    if a.address == 0 || a.size == 0
    then ([], a)
    else ((a.address, a.size) ∷ [], record a { address = 0; size = 0 })
