-- ===== src/Tests/Dispatcher.antt =====
-- A library with one system call, and the theorem on the dispatch at a concrete input.
use emulator_momo.Common.{
  same_name, ℕ, ◌≡◌, refl, Bool, true, false, inl, some, List, [], ◌∷◌, Dict, lookup, put, take,
  drop, add64, ok,
}
use emulator_momo.Modules.{ExportedSymbol}
use emulator_momo.Serialization.Buffer.{Bytes, from_bytes}
use emulator_momo.Dispatcher.{
  Name, Entry, is_syscall, extract_syscall_id, add_new, find_from, find_syscalls, map_syscalls,
  find_handler, add_handlers, setup, dispatch,
}
use emulator_momo.Dispatcher.Handled.{Listed, answered, dispatch-setup}

-- "NtClose"
abbrev close_name : Name
close_name = 78 ∷ 116 ∷ 67 ∷ 108 ∷ 111 ∷ 115 ∷ 101 ∷ []

abbrev close_export : ExportedSymbol
close_export = record { name = close_name; ordinal = 1; rva = 1; address = 0x180000001 }

abbrev close_image : Bytes
close_image = 0xcc ∷ 0x4c ∷ 0x8b ∷ 0xd1 ∷ 0xb8 ∷ 0x0f ∷ 0 ∷ 0 ∷ 0 ∷ 0xc3 ∷ []

close_number : extract_syscall_id close_export close_image ≡ some 15
unfolding extract_syscall_id is_syscall from_bytes take drop add64
close_number = refl

-- The state is the list of what was done, the latest first.
abbrev note_rax : ℕ → List ℕ → List ℕ
note_rax v s = v ∷ s

abbrev note_stop : List ℕ → List ℕ
note_stop s = 7777 ∷ s

abbrev close_handler : List ℕ → Bool × List ℕ
close_handler s = (false, 1 ∷ s)

abbrev handlers : List (Name × (List ℕ → Bool × List ℕ))
handlers = (close_name, close_handler) ∷ []

abbrev close_table : Dict (Entry (List ℕ → Bool × List ℕ))
close_table = (15, record { name = close_name; handler = some close_handler }) ∷ []

close_setup : setup false handlers (close_export ∷ []) close_image [] [] ≡ ok close_table
unfolding setup find_syscalls find_from add_new map_syscalls add_handlers find_handler same_name
    extract_syscall_id is_syscall from_bytes take drop add64 lookup put
close_setup = refl

close-Listed : Listed (close_export ∷ []) close_image close_name 15
close-Listed = record {
  front = [];
  symbol = close_export;
  back = [];
  stands = refl;
  named = refl;
  number = close_number;
}

dispatch-setup_example :
    dispatch note_rax note_stop close_table 15 true []
    ≡ answered note_rax note_stop true (find_handler close_name handlers) []
dispatch-setup_example =
    dispatch-setup note_rax note_stop handlers (close_export ∷ []) close_image [] [] close_table
      close_name 15 true [] close_setup (inl close-Listed)
