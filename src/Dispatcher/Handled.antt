-- ===== src/Dispatcher/Handled.antt =====
-- src/windows-emulator/syscall_dispatcher.cpp: the handler that a system call reaches.
use emulator_momo.Common.{
  ℕ, ◌≡◌, refl, ◌∙◌, ap, subst, Bool, true, false, ◌⊎◌, inl, inr, Option, none, some, List, [], ◌∷◌,
  ◌++◌, Dict, lookup, ◌==◌, if◌then◌else◌, Bool-cases, Option-cases, ok, ok_injective, bind_ok,
}
use emulator_momo.Modules.{ExportedSymbol}
use emulator_momo.Serialization.Buffer.{Bytes}
use emulator_momo.Syscalls.{status_not_supported}
use emulator_momo.Dispatcher.{
  Name, is_empty, extract_syscall_id, find_from, find_syscalls, Entry, unhandled, map_syscalls,
  find_handler, add_handlers, setup, status_unsuccessful, fails, dispatch,
}
use emulator_momo.Dispatcher.Tables.{
  extract_syscall_id-named, find_from-here, map_syscalls-keeps, map_syscalls-here,
}

-- An export with this name and this number.
pub record Listed (exports : List ExportedSymbol) (image : Bytes) (name : Name) (id : ℕ)
    : Type 0 where
  pub front : List ExportedSymbol
  pub symbol : ExportedSymbol
  pub back : List ExportedSymbol
  pub stands : exports ≡ front ++ symbol ∷ back
  pub named : symbol.name ≡ name
  pub number : extract_syscall_id symbol image ≡ some id

Listed-found :
    (exports : List ExportedSymbol) (image : Bytes) (name : Name) (id : ℕ) (names : Dict Name)
    → Listed exports image name id
    → find_syscalls exports image ≡ ok names
    → (lookup id names ≡ some name) × (is_empty name ≡ false)
unfolding find_syscalls
Listed-found exports image name id names l e =
    let run = subst (λ x. find_from x image [] ≡ ok names) l.stands e in
    (
      subst (λ n. lookup id names ≡ some n) l.named
          (find_from-here image l.front l.symbol l.back [] names id run l.number),
      subst (λ n. is_empty n ≡ false) l.named (extract_syscall_id-named l.symbol image id l.number),
    )

module _ {H : Type 0} (mapping : List (Name × H)) where
  abbrev pub handled : Name → Entry H
  handled name = record { name = name; handler = find_handler name mapping }

  given : Entry H → Option H → Entry H
  given e none = e
  given e (some h) = record e { handler = some h }

  given-unhandled :
      (name : Name) (o : Option H) → given (unhandled name) o ≡ record { name = name; handler = o }
  unfolding given
  given-unhandled name none = refl
  given-unhandled name (some h) = refl

  add_handlers-first :
      (id k : ℕ) (e : Entry H) (t : Dict (Entry H))
      → lookup k (add_handlers false mapping ((id, e) ∷ t)) ≡ (
          if id == k
          then some (given e (find_handler e.name mapping))
          else lookup k (add_handlers false mapping t))
  unfolding add_handlers lookup given
  add_handlers-first id k e t = elim (Option-cases (find_handler e.name mapping)) [
    | inl f ↦ rw (f, add_handlers) refl
    | inr (h, f) ↦ rw (f, add_handlers) refl
  ]

  add_handlers-here :
      (t : Dict (Entry H)) (k : ℕ) (name : Name)
      → lookup k t ≡ some (unhandled name)
      → lookup k (add_handlers false mapping t) ≡ some (handled name)
  unfolding lookup
  add_handlers-here [] k name e = absurd (cc e)
  add_handlers-here ((id, e₀) ∷ t) k name e = elim (Bool-cases (id == k)) [
    | inl same ↦
        let head : some e₀ ≡ some (unhandled name) = rw same at e in
        let entry : e₀ ≡ unhandled name = cc head in
        rw (add_handlers-first id k e₀ t, same)
          (ap (λ (x : Entry H). some (given x (find_handler x.name mapping))) entry
            ∙ ap some (given-unhandled name (find_handler name mapping)))
    | inr other ↦
        rw (add_handlers-first id k e₀ t, other) (add_handlers-here t k name (rw other at e))
  ]

  -- The steps of a setup that ends normally.
  setup-handled :
      (exports : List ExportedSymbol) (image : Bytes) (exports' : List ExportedSymbol)
      (image' : Bytes) (table : Dict (Entry H)) (name : Name) (id : ℕ)
      → setup false mapping exports image exports' image' ≡ ok table
      → Listed exports image name id ⊎ Listed exports' image' name id
      → lookup id table ≡ some (handled name)
  unfolding setup
  setup-handled exports image exports' image' table name id e listed =
      let (names, found, e₁) = bind_ok (find_syscalls exports image) _ table e in
      let (names', found', e₂) = bind_ok (find_syscalls exports' image') _ table e₁ in
      let (first, mapped, e₃) = bind_ok (map_syscalls names []) _ table e₂ in
      let (second, mapped', e₄) = bind_ok (map_syscalls names' first) _ table e₃ in
      let entered : lookup id second ≡ some (unhandled name) = elim listed [
        | inl l ↦
            let (h, named) = Listed-found exports image name id names l found in
            map_syscalls-keeps names' first second id (unhandled name) mapped'
              (map_syscalls-here names [] first id name mapped h named) named
        | inr l ↦
            let (h, named) = Listed-found exports' image' name id names' l found' in
            map_syscalls-here names' first second id name mapped' h named
      ] in
      subst (λ t. lookup id t ≡ some (handled name)) (ok_injective e₄)
        (add_handlers-here second id name entered)

-- What a system call does whose handler is the one given: without a handler the emulator stops with
-- STATUS_NOT_SUPPORTED; where the read for the log throws it stops with STATUS_UNSUCCESSFUL, before the
-- handler; otherwise the handler runs, and the emulator stops likewise where it throws.
abbrev pub answered :
    {M : Type 0} (set_rax : ℕ → M → M) (stop : M → M) → Bool → Option (M → Bool × M) → M → M
answered set_rax stop logs none s = fails set_rax stop status_not_supported s
answered set_rax stop false (some run) s = fails set_rax stop status_unsuccessful s
answered set_rax stop true (some run) s =
    let (threw, s') = run s in if threw then fails set_rax stop status_unsuccessful s' else s'

module _ {M : Type 0} (set_rax : ℕ → M → M) (stop : M → M)
    (mapping : List (Name × (M → Bool × M))) where
  -- After a setup that ends normally, in a release build, the number that the stub of a listed export of either library
  -- loads reaches the handler that is registered for the name of this export, and no other; where none is
  -- registered, the emulator stops with STATUS_NOT_SUPPORTED; where the read of the memory that is logged throws, it
  -- stops with STATUS_UNSUCCESSFUL before the handler runs, and where the handler throws, after it.
  pub dispatch-setup :
      (ntdll : List ExportedSymbol) (ntdll_image : Bytes) (win32u : List ExportedSymbol)
      (win32u_image : Bytes) (table : Dict (Entry (M → Bool × M))) (name : Name) (id : ℕ)
      (logs : Bool) (s : M)
      → setup false mapping ntdll ntdll_image win32u win32u_image ≡ ok table
      → Listed ntdll ntdll_image name id ⊎ Listed win32u win32u_image name id
      → dispatch set_rax stop table id logs s
        ≡ answered set_rax stop logs (find_handler name mapping) s
  unfolding dispatch
  dispatch-setup ntdll ntdll_image win32u win32u_image table name id logs s e listed =
      let here =
        setup-handled mapping ntdll ntdll_image win32u win32u_image table name id e listed in
      elim (Option-cases (find_handler name mapping)) [
        | inl f ↦ rw (here, f, dispatch) refl
        | inr (run, f) ↦ elim (Bool-cases logs) [
          | inl g ↦ rw (here, f, g, dispatch) refl
          | inr g ↦ rw (here, f, g, dispatch) refl
        ]
      ]
