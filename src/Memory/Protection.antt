-- ===== src/Memory/Protection.antt =====
-- src/windows-emulator/memory_utils.hpp: the page protections of Windows and the permissions of the
-- emulator.
use emulator_momo.Common.{
  ℕ, ◌-◌, ◌*◌, ◌/◌, ◌%◌, ◌≡◌, refl, Bool, not, ◌&&◌, ◌||◌, ◌⊎◌, inl, inr, List, [], ◌∷◌, ◌==◌,
  if◌then◌else◌, Bool-cases, arith, Result, ok, thrown, ok≢thrown, Returns, Returns_ok, sym, ◌∙◌,
}
use emulator_momo.Memory.Region.{Permission, no_access, read_write}

abbrev pub page_noaccess : ℕ
page_noaccess = 0x01

abbrev pub page_readonly : ℕ
page_readonly = 0x02

abbrev pub page_readwrite : ℕ
page_readwrite = 0x04

abbrev pub page_writecopy : ℕ
page_writecopy = 0x08

abbrev pub page_execute : ℕ
page_execute = 0x10

abbrev pub page_execute_read : ℕ
page_execute_read = 0x20

abbrev pub page_execute_readwrite : ℕ
page_execute_readwrite = 0x40

abbrev pub page_guard : ℕ
page_guard = 0x100

-- `memory_permission::read`, `read | exec` and `all`
abbrev pub read_only : Permission
read_only = 1

abbrev pub read_exec : Permission
read_exec = 5

abbrev pub all_access : Permission
all_access = 7

-- A bit of a number, by its weight.
abbrev pub has_bit : ℕ → ℕ → Bool
has_bit weight n = n / weight % 2 == 1

unfoldable pub get_permission_string : Permission → List ℕ
get_permission_string p =
    (if has_bit 1 p then 114 else 45)
    ∷ (if has_bit 2 p then 119 else 45)
    ∷ (if has_bit 4 p then 120 else 45)
    ∷ []

-- `nt_protection & ~PAGE_GUARD`
abbrev pub without_guard : ℕ → ℕ
without_guard n = n - page_guard * (n / page_guard % 2)

unfoldable pub map_unguarded : ℕ → Result Permission
map_unguarded n =
    if n == page_noaccess
    then ok no_access
    else if n == page_readonly
    then ok read_only
    else if n == page_readwrite || n == page_writecopy
    then ok read_write
    else if n == page_execute || n == page_execute_read
    then ok read_exec
    else if n == page_execute_readwrite
    then ok all_access
    else thrown

unfoldable pub map_nt_to_emulator_protection : ℕ → Result Permission
unfolding map_unguarded
map_nt_to_emulator_protection n = map_unguarded (without_guard n)

unfoldable pub map_emulator_to_nt_protection : Permission → ℕ
map_emulator_to_nt_protection p =
    let has_exec = has_bit 4 p in
    let has_read = has_bit 1 p in
    let has_write = has_bit 2 p in
    if not has_read
    then page_noaccess
    else if has_exec && has_write
    then page_execute_readwrite
    else if has_exec
    then page_execute_read
    else if has_write
    then page_readwrite
    else page_readonly

-- A permission that a protection of Windows can stand for.
abbrev Mappable : Permission → Type 0
Mappable p = map_nt_to_emulator_protection (map_emulator_to_nt_protection p) ≡ ok p

map_unguarded_cases : (n : ℕ) → Returns (map_unguarded n) Mappable ⊎ (map_unguarded n ≡ thrown)
unfolding map_unguarded map_nt_to_emulator_protection map_emulator_to_nt_protection
map_unguarded_cases n = elim (Bool-cases (n == page_noaccess)) [
  | inl e ↦ inl (no_access, rw e refl, refl)
  | inr a ↦ elim (Bool-cases (n == page_readonly)) [
    | inl e ↦ inl (read_only, rw (a, e) refl, refl)
    | inr b ↦ elim (Bool-cases (n == page_readwrite || n == page_writecopy)) [
      | inl e ↦ inl (read_write, rw (a, b, e) refl, refl)
      | inr c ↦ elim (Bool-cases (n == page_execute || n == page_execute_read)) [
        | inl e ↦ inl (read_exec, rw (a, b, c, e) refl, refl)
        | inr d ↦ elim (Bool-cases (n == page_execute_readwrite)) [
          | inl e ↦ inl (all_access, rw (a, b, c, d, e) refl, refl)
          | inr e ↦ inr (rw (a, b, c, d, e) refl)
        ]
      ]
    ]
  ]
]

-- The permission that a protection of Windows is mapped to, if it is mapped at all, comes back from
-- the protection that the permission is reported as, and the guard bit makes no difference.
pub protection_round_trip :
    (n : ℕ) (p : Permission)
    → map_nt_to_emulator_protection n ≡ ok p
    → (map_nt_to_emulator_protection (map_emulator_to_nt_protection p) ≡ ok p)
      × (map_nt_to_emulator_protection (without_guard n) ≡ ok p)
unfolding map_nt_to_emulator_protection
protection_round_trip n p e =
    let same : without_guard (without_guard n) ≡ without_guard n = omega arith in
    (
      elim (map_unguarded_cases (without_guard n)) [
        | inl r ↦ Returns_ok {P = Mappable} r e
        | inr f ↦ absurd (ok≢thrown (sym e ∙ f))
      ],
      rw same e,
    )
