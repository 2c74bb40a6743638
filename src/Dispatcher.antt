-- ===== src/Dispatcher.antt =====
-- src/windows-emulator/syscall_utils.hpp and syscall_dispatcher.cpp: the numbers of the system calls, read
-- off the code of the system libraries, and the call of a handler by its number.
pub mod Tables
pub mod Handled
use emulator_momo.Common.{
  same_name, ℕ, Bool, true, false, not, ◌&&◌, ◌||◌, Option, none, some, List, [], ◌∷◌, Dict, lookup,
  put, take, drop, length, ltb, leb, ◌==◌, if◌then◌else◌, add64, Result, ok, thrown, ◌>>=◌,
}
use emulator_momo.Modules.{ExportedSymbol}
use emulator_momo.Serialization.Buffer.{Bytes, from_bytes}
use emulator_momo.Syscalls.{status_not_supported}

abbrev pub Name : Type 0
Name = List ℕ

abbrev pub is_empty : Name → Bool
is_empty [] = true
is_empty (c ∷ cs) = false

-- `toupper(character) == character`, in the locale of C
abbrev pub is_uppercase : ℕ → Bool
is_uppercase c = not (leb 97 c && leb c 122)

-- "Nt", an upper-case letter, and one character more.
unfoldable pub is_syscall : Name → Bool
is_syscall [] = false
is_syscall (a ∷ []) = false
is_syscall (a ∷ b ∷ []) = false
is_syscall (a ∷ b ∷ c ∷ []) = false
is_syscall (a ∷ b ∷ c ∷ d ∷ rest) = a == 78 && b == 116 && is_uppercase c

-- The operand of the `mov eax, imm32` at the third byte of the stub. The sums of the position wrap
-- around; where they do not, the bytes that are read lie in the image.
unfoldable pub extract_syscall_id : ExportedSymbol → Bytes → Option ℕ
extract_syscall_id symbol image =
    let instruction_rva = add64 symbol.rva 3 in
    if not (is_syscall symbol.name)
    then none
    else if ltb (length image) (add64 instruction_rva 5)
        || not (from_bytes (take 1 (drop instruction_rva image)) == 0xb8)
    then none
    else some (from_bytes (take 4 (drop (add64 instruction_rva 1) image)))

-- `auto& entry = m[id]`, an exception where the entry is named, and `entry = v` else.
unfoldable pub add_new : {V : Type 0} → (V → Name) → ℕ → V → Dict V → Result (Dict V)
add_new name_of id v m = elim (lookup id m) [
  | none ↦ ok (put id v m)
  | some old ↦ if not (is_empty (name_of old)) then thrown else ok (put id v m)
]

abbrev pub add_name : ℕ → Name → Dict Name → Result (Dict Name)
add_name = add_new (λ n. n)

-- The loop of `find_syscalls`, with the system calls found so far.
unfoldable pub find_from : List ExportedSymbol → Bytes → Dict Name → Result (Dict Name)
find_from [] image syscalls = ok syscalls
find_from (symbol ∷ symbols) image syscalls = elim (extract_syscall_id symbol image) [
  | none ↦ find_from symbols image syscalls
  | some id ↦ add_name id symbol.name syscalls >>= λ m. find_from symbols image m
]

unfoldable pub find_syscalls : List ExportedSymbol → Bytes → Result (Dict Name)
unfolding find_from
find_syscalls exports image = find_from exports image []

-- `H` is the type of the handlers; `none` is the null pointer.
pub record Entry (H : Type 0) : Type 0 where
  pub name : Name
  pub handler : Option H

module _ {H : Type 0} where
  abbrev pub unhandled : Name → Entry H
  unhandled name = record { name = name; handler = none }

  abbrev pub add_entry : ℕ → Entry H → Dict (Entry H) → Result (Dict (Entry H))
  add_entry = add_new (λ (e : Entry H). e.name)

  unfoldable pub map_syscalls : Dict Name → Dict (Entry H) → Result (Dict (Entry H))
  map_syscalls [] handlers = ok handlers
  map_syscalls ((id, name) ∷ syscalls) handlers =
      add_entry id (unhandled name) handlers >>= λ m. map_syscalls syscalls m

  -- `handler_mapping`, which the static `add_handlers` fills.
  unfoldable pub find_handler : Name → List (Name × H) → Option H
  find_handler name [] = none
  find_handler name ((n, h) ∷ mapping) =
      if same_name n name then some h else find_handler name mapping

  unfoldable pub erase_handler : Name → List (Name × H) → List (Name × H)
  erase_handler name [] = []
  erase_handler name ((n, h) ∷ mapping) =
      if same_name n name then mapping else (n, h) ∷ erase_handler name mapping

  -- The loop of the member `add_handlers`. A debug build uses a handler once.
  unfoldable pub add_handlers : Bool → List (Name × H) → Dict (Entry H) → Dict (Entry H)
  add_handlers debug mapping [] = []
  add_handlers debug mapping ((id, e) ∷ handlers) = elim (find_handler e.name mapping) [
    | none ↦ (id, e) ∷ add_handlers debug mapping handlers
    | some h ↦
        (id, record e { handler = some h })
        ∷ add_handlers debug (if debug then erase_handler e.name mapping else mapping) handlers
  ]

  unfoldable pub setup :
      Bool
      → List (Name × H)
      → List ExportedSymbol
      → Bytes
      → List ExportedSymbol
      → Bytes
      → Result (Dict (Entry H))
  setup debug mapping ntdll_exports ntdll_data win32u_exports win32u_data = do
    ntdll_syscalls ← find_syscalls ntdll_exports ntdll_data
    win32u_syscalls ← find_syscalls win32u_exports win32u_data
    first ← map_syscalls ntdll_syscalls []
    second ← map_syscalls win32u_syscalls first
    ok (add_handlers debug mapping second)

abbrev pub status_unsuccessful : ℕ
status_unsuccessful = 1

-- `M` is the emulator with the process. A handler gives the state that it leaves, and whether it
-- ends by an exception.
module _ {M : Type 0} (set_rax : ℕ → M → M) (stop : M → M) where
  abbrev pub Handler : Type 0
  Handler = M → Bool × M

  abbrev fails : ℕ → M → M
  fails status s = stop (set_rax status s)

  -- `id` is the value of eax. `logs` is false where the memory that only the log reads is not
  -- mapped, so that an exception comes before the handler.
  unfoldable pub dispatch : Dict (Entry Handler) → ℕ → Bool → M → M
  dispatch handlers id logs s = elim (lookup id handlers) [
    | none ↦ fails status_not_supported s
    | some e ↦ elim e.handler [
      | none ↦ fails status_not_supported s
      | some run ↦
          let (threw, s') = run s in
          if not logs
          then fails status_unsuccessful s
          else if threw
          then fails status_unsuccessful s'
          else s'
    ]
  ]
