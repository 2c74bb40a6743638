-- ===== src/Modules/Relocations/Bounds.antt =====
-- src/common/utils/buffer_accessor.hpp: what is read and written lies in the buffer, and a write keeps its
-- length.
use emulator_momo.Common.{
  ℕ, zero, suc, ◌+◌, ◌-◌, ◌*◌, ◌%◌, ◌≤◌, ◌<◌, ◌≡◌, refl, sym, ap, ◌∙◌, List, [], ◌∷◌, ◌++◌, length,
  length-append, take, drop, add64-eq, u32_mod, u64_mod, ok, bind_ok, ok_injective, arith,
}
use emulator_momo.Serialization.Buffer.{Bytes, to_bytes}
use emulator_momo.Serialization.Numbers.{length-to_bytes}
use emulator_momo.Modules.Accessor.{get_valid_pointer, get_object, get_number, write_at, set_object}
use emulator_momo.Modules.Relocations.{apply_relocation, apply_entry, apply_entries}

pub length-take : {A : Type 0} (n : ℕ) (xs : List A) → n ≤ length xs → length (take n xs) ≡ n
unfolding take
length-take zero xs h = refl
length-take (suc n) [] h = absurd (omega arith)
length-take (suc n) (x ∷ xs) h = ap suc (length-take n xs (omega arith))

pub length-drop : {A : Type 0} (n : ℕ) (xs : List A) → length (drop n xs) ≡ length xs - n
unfolding drop
length-drop zero xs = omega arith
length-drop (suc n) [] = omega arith
length-drop (suc n) (x ∷ xs) = omega (arith, length-drop n xs)

-- A pointer that is handed out leaves room for the object, where the sums do not wrap around.
pub get_valid_pointer_bounds :
    (size offset i : ℕ) (buffer : Bytes) (start : ℕ)
    → offset + size * i + size < u64_mod
    → get_valid_pointer size offset i buffer ≡ ok start
    → (start ≡ offset + size * i) × (start + size ≤ length buffer)
unfolding get_valid_pointer
get_valid_pointer_bounds size offset i buffer start small e =
    let no_wrap : size * i % u64_mod ≡ size * i = omega arith in
    let a = add64-eq offset (size * i) (omega arith) in
    let b = add64-eq (offset + size * i) size (omega arith) in
    let e' = rw (get_valid_pointer, no_wrap, a, b) at e in ground (arith, e')

pub get_object_bounds :
    (size offset i : ℕ) (buffer object : Bytes)
    → offset + size * i + size < u64_mod
    → get_object size offset i buffer ≡ ok object
    → offset + size * i + size ≤ length buffer
unfolding get_object
get_object_bounds size offset i buffer object small e =
    let (start, es, _) = bind_ok (get_valid_pointer size offset i buffer) _ object e in
    let b = get_valid_pointer_bounds size offset i buffer start small es in omega (arith, b.0, b.1)

pub get_number_bounds :
    (size offset i : ℕ) (buffer : Bytes) (value : ℕ)
    → offset + size * i + size < u64_mod
    → get_number size offset i buffer ≡ ok value
    → offset + size * i + size ≤ length buffer
unfolding get_number
get_number_bounds size offset i buffer value small e =
    let (object, eo, _) = bind_ok (get_object size offset i buffer) _ value e in
    get_object_bounds size offset i buffer object small eo

pub length-write_at :
    (start : ℕ) (object buffer : Bytes)
    → start + length object ≤ length buffer
    → length (write_at start object buffer) ≡ length buffer
unfolding write_at
length-write_at start object buffer h = omega (
  arith,
  length-append (take start buffer) (object ++ drop (start + length object) buffer),
  length-append object (drop (start + length object) buffer),
  length-take start buffer,
  length-drop (start + length object) buffer,
)

pub set_object-length :
    (object : Bytes) (offset : ℕ) (buffer buffer' : Bytes)
    → offset + length object < u64_mod
    → set_object object offset 0 buffer ≡ ok buffer'
    → length buffer' ≡ length buffer
unfolding set_object
set_object-length object offset buffer buffer' small e =
    let (start, es, e') = bind_ok (get_valid_pointer (length object) offset 0 buffer) _ buffer' e in
    let b = get_valid_pointer_bounds (length object) offset 0 buffer start (omega arith) es in
    sym (ap length (ok_injective e')) ∙ length-write_at start object buffer b.1

apply_relocation-length :
    (size bound offset delta : ℕ) (buffer buffer' : Bytes)
    → offset + size < u64_mod
    → apply_relocation size bound offset delta buffer ≡ ok buffer'
    → length buffer' ≡ length buffer
unfolding apply_relocation
apply_relocation-length size bound offset delta buffer buffer' small e =
    let (value, ev, e') = bind_ok (get_number size offset 0 buffer) _ buffer' e in
    let object = to_bytes size ((value + delta % bound) % bound) in
    let n = length-to_bytes size ((value + delta % bound) % bound) in
    set_object-length object offset buffer buffer' (omega (arith, n)) e'

pub apply_entry-length :
    (delta virtual_address entry : ℕ) (buffer buffer' : Bytes)
    → apply_entry delta virtual_address entry buffer ≡ ok buffer'
    → length buffer' ≡ length buffer
unfolding apply_entry
apply_entry-length delta virtual_address entry buffer buffer' e =
    let total = (virtual_address + entry % 0x1000) % u32_mod in
    ground (
      arith,
      apply_relocation-length 4 u32_mod total delta buffer buffer',
      apply_relocation-length 8 u64_mod total delta buffer buffer',
    )

-- The entries that are read lie in the buffer.
pub apply_entries_bounds :
    (delta virtual_address entries rounds i : ℕ) (buffer buffer' : Bytes)
    → entries + 2 * (i + rounds) < u64_mod
    → apply_entries delta virtual_address entries rounds i buffer ≡ ok buffer'
    → (length buffer' ≡ length buffer) × (0 < rounds → entries + 2 * (i + rounds) ≤ length buffer)
unfolding apply_entries
apply_entries_bounds delta virtual_address entries zero i buffer buffer' small e =
    (ap length (sym (ok_injective e)), λ h. absurd (omega arith))
apply_entries_bounds delta virtual_address entries (suc rounds) i buffer buffer' small e =
    let (entry, en, e1) = bind_ok (get_number 2 entries i buffer) _ buffer' e in
    let (between, eb, e2) = bind_ok (apply_entry delta virtual_address entry buffer) _ buffer' e1 in
    let keeps = apply_entry-length delta virtual_address entry buffer between eb in
    let here = get_number_bounds 2 entries i buffer entry (omega arith) en in
    let rest =
      apply_entries_bounds delta virtual_address entries rounds (i + 1) between buffer'
        (omega arith) e2 in
    (rest.0 ∙ keeps, λ h. ground (arith, keeps, here, rest.1))
