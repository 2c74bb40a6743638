-- ===== src/Modules/Exports.antt =====
-- src/windows-emulator/module/module_mapping.cpp: `collect_exports`.
use emulator_momo.Common.{
  ℕ, zero, suc, ◌+◌, ◌%◌, ◌||◌, List, [], ◌∷◌, Dict, emplace, ◌==◌, if◌then◌else◌, add64, u32_mod,
  Result, ok, ◌>>=◌, Text,
}
use emulator_momo.Serialization.Buffer.{Bytes}
use emulator_momo.Modules.{ExportedSymbol}
use emulator_momo.Modules.Accessor.{get_number, as_string}
use emulator_momo.Modules.Headers.{Directory, ExportDirectory, get_export_directory}

-- One round of the loop over the names.
unfoldable pub get_symbol : ℕ → ExportDirectory → ℕ → Bytes → Result ExportedSymbol
unfolding get_number as_string
get_symbol image_base d i buffer = do
  ordinal ← get_number 2 d.address_of_name_ordinals i buffer
  rva ← get_number 4 d.address_of_functions ordinal buffer
  name_offset ← get_number 4 d.address_of_names i buffer
  name ← as_string name_offset buffer
  ok (record {
    name = name;
    ordinal = (d.base + ordinal) % u32_mod;
    rva = rva;
    address = add64 image_base rva;
  })

-- The loop, from the index `i` on.
unfoldable pub get_symbols : ℕ → ExportDirectory → ℕ → ℕ → Bytes → Result (List ExportedSymbol)
unfolding get_symbol
get_symbols image_base d zero i buffer = ok []
get_symbols image_base d (suc rounds) i buffer = do
  symbol ← get_symbol image_base d i buffer
  symbols ← get_symbols image_base d rounds (i + 1) buffer
  ok (symbol ∷ symbols)

-- The loop that fills `address_names` with `try_emplace`
unfoldable pub name_addresses : List ExportedSymbol → Dict Text → Dict Text
unfolding emplace
name_addresses [] names = names
name_addresses (symbol ∷ symbols) names =
    name_addresses symbols (emplace symbol.address symbol.name names)

-- The exports and the names of their addresses.
unfoldable pub collect_exports : ℕ → Directory → Bytes → Result (List ExportedSymbol × Dict Text)
unfolding get_symbols name_addresses
collect_exports image_base directory buffer =
    if directory.virtual_address == 0 || directory.size == 0 then ok ([], []) else do
      d ← get_export_directory directory.virtual_address buffer
      symbols ← get_symbols image_base d d.number_of_names 0 buffer
      ok (symbols, name_addresses symbols [])
