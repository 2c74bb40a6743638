-- ===== src/Dispatcher/Tables.antt =====
-- src/windows-emulator/syscall_utils.hpp and syscall_dispatcher.cpp: what the tables of the system calls
-- have at a number.
use mathlib.Core.Bool.{false≢true}
use emulator_momo.Common.{
  ℕ, ◌≡◌, refl, sym, ◌∙◌, true, false, inl, inr, none, some, List, [], ◌∷◌, ◌++◌, Dict, lookup, put,
  lookup-put, ◌==◌, Bool-cases, Option-cases, eq→==, ==→eq, ok, ◌>>=◌, ok≢thrown, ok_injective,
  bind_ok, subst,
}
use emulator_momo.Modules.{ExportedSymbol}
use emulator_momo.Serialization.Buffer.{Bytes}
use emulator_momo.Dispatcher.{
  Name, is_empty, is_syscall, extract_syscall_id, add_new, add_name, find_from, Entry, unhandled,
  add_entry, map_syscalls,
}

module _ {V : Type 0} (name_of : V → Name) where
  -- An addition that ends normally puts the value where nothing with a name stands.
  added :
      (id : ℕ) (v : V) (m n : Dict V)
      → add_new name_of id v m ≡ ok n
      → (n ≡ put id v m) × ((old : V) → lookup id m ≡ some old → is_empty (name_of old) ≡ true)
  unfolding add_new
  added id v m n e = elim (Option-cases (lookup id m)) [
    | inl free ↦ (ok_injective (sym e ∙ rw (free, add_new) refl), λ old f. absurd (cc (free, f)))
    | inr (old, found) ↦ elim (Bool-cases (is_empty (name_of old))) [
      | inl empty ↦ (
        ok_injective (sym e ∙ rw (found, add_new, empty) refl),
        λ w f. subst (λ z. is_empty (name_of z) ≡ true) (cc (found, f)) empty,
      )
      | inr named ↦ absurd (ok≢thrown (sym e ∙ rw (found, add_new, named) refl))
    ]
  ]

  -- A value that is added is there, and the named values that were there are kept.
  pub add_new-here :
      (id : ℕ) (v : V) (m n : Dict V) → add_new name_of id v m ≡ ok n → lookup id n ≡ some v
  add_new-here id v m n e = rw ((added id v m n e).0, lookup-put id id v m, eq→== id id refl) refl

  pub add_new-keeps :
      (id k : ℕ) (v w : V) (m n : Dict V)
      → add_new name_of id v m ≡ ok n
      → lookup k m ≡ some w
      → is_empty (name_of w) ≡ false
      → lookup k n ≡ some w
  add_new-keeps id k v w m n e found named = elim (Bool-cases (id == k)) [
    | inl same ↦ absurd (
        false≢true (
          sym named
          ∙ (added id v m n e).1 w
              (subst (λ j. lookup j m ≡ some w) (sym (==→eq id k same)) found)))
    | inr other ↦ rw ((added id v m n e).0, lookup-put id k v m, other) found
  ]

is_syscall-named : (name : Name) → is_syscall name ≡ true → is_empty name ≡ false
unfolding is_syscall
is_syscall-named [] e = absurd (false≢true e)
is_syscall-named (c ∷ cs) e = refl

-- An export that has a number is named.
pub extract_syscall_id-named :
    (symbol : ExportedSymbol) (image : Bytes) (id : ℕ)
    → extract_syscall_id symbol image ≡ some id
    → is_empty symbol.name ≡ false
unfolding extract_syscall_id
extract_syscall_id-named symbol image id e = elim (Bool-cases (is_syscall symbol.name)) [
  | inl shaped ↦ is_syscall-named symbol.name shaped
  | inr other ↦
      let nothing : extract_syscall_id symbol image ≡ none = rw (other, extract_syscall_id) refl in
      absurd (cc (nothing, e))
]

module _ (image : Bytes) where
  -- The rest of the loop behind an export with a number.
  behind :
      (s : ExportedSymbol) (ss : List ExportedSymbol) (m n : Dict Name) (id : ℕ)
      → find_from (s ∷ ss) image m ≡ ok n
      → extract_syscall_id s image ≡ some id
      → (m' : Dict Name) × (add_name id s.name m ≡ ok m') × (find_from ss image m' ≡ ok n)
  unfolding find_from
  behind s ss m n id e number =
      let run : find_from (s ∷ ss) image m
          ≡ (add_name id s.name m >>= λ m'. find_from ss image m') =
        rw (number, find_from) refl in
      bind_ok (add_name id s.name m) (λ m'. find_from ss image m') n (sym run ∙ e)

  skipped :
      (s : ExportedSymbol) (ss : List ExportedSymbol) (m n : Dict Name)
      → find_from (s ∷ ss) image m ≡ ok n
      → extract_syscall_id s image ≡ none
      → find_from ss image m ≡ ok n
  unfolding find_from
  skipped s ss m n e skip =
      let run : find_from (s ∷ ss) image m ≡ find_from ss image m = rw (skip, find_from) refl in
      sym run ∙ e

  find_from-keeps :
      (symbols : List ExportedSymbol) (m n : Dict Name) (k : ℕ) (name : Name)
      → find_from symbols image m ≡ ok n
      → lookup k m ≡ some name
      → is_empty name ≡ false
      → lookup k n ≡ some name
  unfolding find_from
  find_from-keeps [] m n k name e found named =
      subst (λ x. lookup k x ≡ some name) (ok_injective e) found
  find_from-keeps (s ∷ ss) m n k name e found named =
      elim (Option-cases (extract_syscall_id s image)) [
        | inl skip ↦ find_from-keeps ss m n k name (skipped s ss m n e skip) found named
        | inr (id, number) ↦
            let (m', step, rest) = behind s ss m n id e number in
            find_from-keeps ss m' n k name rest
              (add_new-keeps (λ n. n) id k s.name name m m' step found named) named
      ]

  -- The name of an export is found under its number.
  pub find_from-here :
      (front : List ExportedSymbol) (s : ExportedSymbol) (back : List ExportedSymbol)
      (m n : Dict Name) (id : ℕ)
      → find_from (front ++ s ∷ back) image m ≡ ok n
      → extract_syscall_id s image ≡ some id
      → lookup id n ≡ some s.name
  find_from-here [] s back m n id e number =
      let (m', step, rest) = behind s back m n id e number in
      find_from-keeps back m' n id s.name rest (add_new-here (λ n. n) id s.name m m' step)
        (extract_syscall_id-named s image id number)
  find_from-here (t ∷ ts) s back m n id e number =
      elim (Option-cases (extract_syscall_id t image)) [
        | inl skip ↦ find_from-here ts s back m n id (skipped t (ts ++ s ∷ back) m n e skip) number
        | inr (j, other) ↦
            let (m', step, rest) = behind t (ts ++ s ∷ back) m n j e other in
            find_from-here ts s back m' n id rest number
      ]

module _ {H : Type 0} where
  pub map_syscalls-keeps :
      (names : Dict Name) (t u : Dict (Entry H)) (k : ℕ) (w : Entry H)
      → map_syscalls names t ≡ ok u
      → lookup k t ≡ some w
      → is_empty w.name ≡ false
      → lookup k u ≡ some w
  unfolding map_syscalls
  map_syscalls-keeps [] t u k w e found named =
      subst (λ x. lookup k x ≡ some w) (ok_injective e) found
  map_syscalls-keeps ((id, name) ∷ names) t u k w e found named =
      let (t', step, rest) =
        bind_ok (add_entry id (unhandled name) t) (λ m. map_syscalls names m) u e in
      map_syscalls-keeps names t' u k w rest
        (add_new-keeps (λ (x : Entry H). x.name) id k (unhandled name) w t t' step found named)
        named

  pub map_syscalls-here :
      (names : Dict Name) (t u : Dict (Entry H)) (k : ℕ) (name : Name)
      → map_syscalls names t ≡ ok u
      → lookup k names ≡ some name
      → is_empty name ≡ false
      → lookup k u ≡ some (unhandled name)
  unfolding map_syscalls lookup
  map_syscalls-here [] t u k name e found named = absurd (cc found)
  map_syscalls-here ((id, first) ∷ names) t u k name e found named =
      let (t', step, rest) =
        bind_ok (add_entry id (unhandled first) t) (λ m. map_syscalls names m) u e in
      elim (Bool-cases (id == k)) [
        | inl same ↦
            let head : some first ≡ some name = rw same at found in
            let here = add_new-here (λ (x : Entry H). x.name) id (unhandled first) t t' step in
            map_syscalls-keeps names t' u k (unhandled name) rest
              (subst (λ j. lookup j t' ≡ some (unhandled name)) (==→eq id k same)
                (subst (λ n. lookup id t' ≡ some (unhandled n)) (cc head) here))
              named
        | inr other ↦ map_syscalls-here names t' u k name rest (rw other at found) named
      ]
