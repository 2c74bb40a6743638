-- ===== src/Modules/Names.antt =====
-- src/windows-emulator/module/module_mapping.cpp: the exports of an image and the names of their
-- addresses.
use emulator_momo.Common.{
  ℕ, zero, suc, ◌+◌, ◌≡◌, refl, sym, ap, ◌∙◌, subst, inl, inr, Bool, true, false, ◌||◌, Option,
  none, some, List, [], ◌∷◌, Dict, lookup, emplace, lookup-put, length, ◌==◌, if◌then◌else◌,
  Bool-cases, ==→eq, Option-cases, add64, ok, bind_ok, ok_injective, Text,
}
use emulator_momo.Serialization.Buffer.{Bytes}
use emulator_momo.Modules.{ExportedSymbol}
use emulator_momo.Modules.Accessor.{get_number, as_string}
use emulator_momo.Modules.Headers.{Directory, ExportDirectory, get_export_directory}
use emulator_momo.Modules.Exports.{get_symbol, get_symbols, name_addresses, collect_exports}

-- The name of the first symbol at an address.
pub first_name : ℕ → List ExportedSymbol → Option Text
first_name address [] = none
first_name address (symbol ∷ symbols) =
    if symbol.address == address then some symbol.name else first_name address symbols

abbrev or_name : Option Text → Option Text → Option Text
or_name none n = n
or_name (some n) _ = some n

or_name-none : (n : Option Text) → or_name n none ≡ n
or_name-none none = refl
or_name-none (some n) = refl

lookup-emplace :
    (k j : ℕ) (v : Text) (m : Dict Text)
    → lookup j (emplace k v m) ≡ or_name (lookup j m) (if k == j then some v else none)
unfolding emplace
lookup-emplace k j v m = elim (Option-cases (lookup k m)) [
  | inl e ↦ elim (Bool-cases (k == j)) [
    | inl h ↦
        let at_j : lookup j m ≡ none = rw (← ==→eq k j h) e in
        rw (emplace, e, lookup-put k j v m, h, at_j) refl
    | inr h ↦ rw (emplace, e, lookup-put k j v m, h) (sym (or_name-none (lookup j m)))
  ]
  | inr (w, e) ↦ elim (Bool-cases (k == j)) [
    | inl h ↦ let at_j : lookup j m ≡ some w = rw (← ==→eq k j h) e in rw (emplace, e, h, at_j) refl
    | inr h ↦ rw (emplace, e, h) (sym (or_name-none (lookup j m)))
  ]
]

or_name-if :
    (n rest : Option Text) (here : Bool) (name : Text)
    → or_name (or_name n (if here then some name else none)) rest
      ≡ or_name n (if here then some name else rest)
or_name-if none rest true name = refl
or_name-if none rest false name = refl
or_name-if (some n) rest here name = refl

lookup-name_addresses :
    (address : ℕ) (symbols : List ExportedSymbol) (names : Dict Text)
    → lookup address (name_addresses symbols names)
      ≡ or_name (lookup address names) (first_name address symbols)
unfolding name_addresses first_name
lookup-name_addresses address [] names = sym (or_name-none (lookup address names))
lookup-name_addresses address (symbol ∷ symbols) names =
    lookup-name_addresses address symbols (emplace symbol.address symbol.name names)
    ∙ ap (λ n. or_name n (first_name address symbols))
        (lookup-emplace symbol.address address symbol.name names)
    ∙ or_name-if (lookup address names) (first_name address symbols) (symbol.address == address)
        symbol.name

-- What a symbol is made of.
pub record IsExport (image_base : ℕ) (d : ExportDirectory) (buffer : Bytes) (i : ℕ)
    (symbol : ExportedSymbol) : Type 0 where
  pub at_base : symbol.address ≡ add64 image_base symbol.rva
  pub ordinal : ℕ
  pub ordinal_read : get_number 2 d.address_of_name_ordinals i buffer ≡ ok ordinal
  pub rva_read : get_number 4 d.address_of_functions ordinal buffer ≡ ok symbol.rva
  pub name_offset : ℕ
  pub name_offset_read : get_number 4 d.address_of_names i buffer ≡ ok name_offset
  pub name_read : as_string name_offset buffer ≡ ok symbol.name

-- The symbols stand for the names in their order.
abbrev pub AreExports : ℕ → ExportDirectory → Bytes → ℕ → List ExportedSymbol → Type 0
AreExports image_base d buffer i [] = Unit {0}
AreExports image_base d buffer i (symbol ∷ symbols) =
    IsExport image_base d buffer i symbol × AreExports image_base d buffer (i + 1) symbols

get_symbol-IsExport :
    (image_base : ℕ) (d : ExportDirectory) (i : ℕ) (buffer : Bytes) (symbol : ExportedSymbol)
    → get_symbol image_base d i buffer ≡ ok symbol
    → IsExport image_base d buffer i symbol
unfolding get_symbol
get_symbol-IsExport image_base d i buffer symbol e =
    let (ordinal, e1, f1) = bind_ok (get_number 2 d.address_of_name_ordinals i buffer) _ symbol e in
    let (rva, e2, f2) = bind_ok (get_number 4 d.address_of_functions ordinal buffer) _ symbol f1 in
    let (name_offset, e3, f3) = bind_ok (get_number 4 d.address_of_names i buffer) _ symbol f2 in
    let (name, e4, f4) = bind_ok (as_string name_offset buffer) _ symbol f3 in
    let same = ok_injective f4 in
    let rva_eq = ap (λ (x : ExportedSymbol). x.rva) same in
    let name_eq = ap (λ (x : ExportedSymbol). x.name) same in
    record {
      at_base = sym (ap (λ (x : ExportedSymbol). x.address) same) ∙ ap (add64 image_base) rva_eq;
      ordinal = ordinal;
      ordinal_read = e1;
      rva_read = e2 ∙ ap ok rva_eq;
      name_offset = name_offset;
      name_offset_read = e3;
      name_read = e4 ∙ ap ok name_eq;
    }

get_symbols-AreExports :
    (image_base : ℕ) (d : ExportDirectory) (rounds i : ℕ) (buffer : Bytes)
    (symbols : List ExportedSymbol)
    → get_symbols image_base d rounds i buffer ≡ ok symbols
    → AreExports image_base d buffer i symbols × (length symbols ≡ rounds)
unfolding get_symbols
get_symbols-AreExports image_base d zero i buffer symbols e =
    subst (λ x. AreExports image_base d buffer i x × (length x ≡ 0)) (ok_injective e) (tt, refl)
get_symbols-AreExports image_base d (suc rounds) i buffer symbols e =
    let (symbol, e1, f1) = bind_ok (get_symbol image_base d i buffer) _ symbols e in
    let (rest, e2, f2) = bind_ok (get_symbols image_base d rounds (i + 1) buffer) _ symbols f1 in
    let others = get_symbols-AreExports image_base d rounds (i + 1) buffer rest e2 in
    subst (λ x. AreExports image_base d buffer i x × (length x ≡ suc rounds)) (ok_injective f2)
      ((get_symbol-IsExport image_base d i buffer symbol e1, others.0), ap suc others.1)

-- The exports of an image with an export directory: one symbol for each name, with the function that the
-- ordinal of the name leads to, at its place behind the base; and the name of an address is that of the
-- first symbol there.
pub collect_exports-AreExports :
    (image_base : ℕ) (directory : Directory) (buffer : Bytes) (d : ExportDirectory)
    (symbols : List ExportedSymbol) (names : Dict Text)
    → (directory.virtual_address == 0 || directory.size == 0) ≡ false
    → get_export_directory directory.virtual_address buffer ≡ ok d
    → collect_exports image_base directory buffer ≡ ok (symbols, names)
    → AreExports image_base d buffer 0 symbols
      × (length symbols ≡ d.number_of_names)
      × ((address : ℕ) → lookup address names ≡ first_name address symbols)
unfolding collect_exports lookup
collect_exports-AreExports image_base directory buffer d symbols names there ed e =
    let e' = rw (collect_exports, there, ed) at e in
    let (found, e1, f1) = bind_ok (get_symbols image_base d d.number_of_names 0 buffer) _ _ e' in
    let same = ok_injective f1 in
    let symbols_eq = ap (λ (x : List ExportedSymbol × Dict Text). x.0) same in
    let names_eq = ap (λ (x : List ExportedSymbol × Dict Text). x.1) same in
    let (are, many) = get_symbols-AreExports image_base d d.number_of_names 0 buffer found e1 in
    (
      subst (AreExports image_base d buffer 0) symbols_eq are,
      ap length (sym symbols_eq) ∙ many,
      λ address.
          ap (lookup address) (sym names_eq)
          ∙ lookup-name_addresses address found []
          ∙ ap (first_name address) symbols_eq,
    )
