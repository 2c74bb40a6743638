-- ===== src/Modules/Relocations/Value.antt =====
-- src/windows-emulator/module/module_mapping.cpp: what a relocation changes, and what the two sizes of the
-- header of a block make of its entries.
use emulator_momo.Common.{
  ℕ, zero, suc, ◌+◌, ◌-◌, ◌*◌, ◌/◌, ◌%◌, ◌≤◌, ◌<◌, ◌≡◌, refl, sym, ap, ◌∙◌, subst, fun_ext, inl,
  inr, ◌⊎◌, true, false, Option, none, some, [], ◌∷◌, ◌++◌, length, take, drop, take-append,
  drop-append, ltb, if◌then◌else◌, add64, u32_mod, u64_mod, Result, ok, ◌>>=◌, ok_injective, arith,
}
use emulator_momo.Serialization.Buffer.{Bytes, to_bytes}
use emulator_momo.Serialization.Numbers.{byte_bound, length-to_bytes, from_bytes-to_bytes}
use emulator_momo.Modules.Accessor.{get_valid_pointer, get_object, get_number, write_at, set_object}
use emulator_momo.Modules.Headers.{BaseRelocation, sizeof_base_relocation}
use emulator_momo.Modules.Relocations.{
  image_rel_based_dir64, apply_relocation, apply_entry, apply_entries, entry_count, entries_of,
  is_last,
}
use emulator_momo.Modules.Relocations.Bounds.{length-take, length-write_at, get_number_bounds}

unfoldable pub byte_at : ℕ → Bytes → Option ℕ
byte_at i [] = none
byte_at zero (b ∷ bs) = some b
byte_at (suc i) (b ∷ bs) = byte_at i bs

byte_at-append :
    (i : ℕ) (xs ys : Bytes)
    → byte_at i (xs ++ ys)
      ≡ (if ltb i (length xs) then byte_at i xs else byte_at (i - length xs) ys)
unfolding byte_at
byte_at-append i [] ys = ground arith
byte_at-append zero (x ∷ xs) ys = ground arith
byte_at-append (suc i) (x ∷ xs) ys = ground (arith, byte_at-append i xs ys)

byte_at-take : (i n : ℕ) (xs : Bytes) → i < n → byte_at i (take n xs) ≡ byte_at i xs
unfolding byte_at take
byte_at-take i zero xs h = absurd (omega arith)
byte_at-take i (suc n) [] h = refl
byte_at-take zero (suc n) (x ∷ xs) h = refl
byte_at-take (suc i) (suc n) (x ∷ xs) h = byte_at-take i n xs (omega arith)

byte_at-drop : (i n : ℕ) (xs : Bytes) → byte_at i (drop n xs) ≡ byte_at (n + i) xs
unfolding byte_at drop
byte_at-drop i zero xs = let e : 0 + i ≡ i = omega arith in rw e refl
byte_at-drop i (suc n) [] = refl
byte_at-drop i (suc n) (x ∷ xs) =
    let e : suc n + i ≡ suc (n + i) = omega arith in rw e (byte_at-drop i n xs)

module _ (start : ℕ) (object buffer : Bytes) (fits : start + length object ≤ length buffer) where
  -- A write changes no byte outside the object.
  byte_at-write_at :
      (i : ℕ)
      → (i < start) ⊎ (start + length object ≤ i)
      → byte_at i (write_at start object buffer) ≡ byte_at i buffer
  unfolding write_at
  byte_at-write_at i (inl h) =
      let n = length-take start buffer (omega arith) in
      ground (
        arith,
        byte_at-append i (take start buffer) (object ++ drop (start + length object) buffer),
        byte_at-take i start buffer,
      )
  byte_at-write_at i (inr h) =
      let n = length-take start buffer (omega arith) in
      let rest = drop (start + length object) buffer in
      let j : start + length object + (i - start - length object) ≡ i = omega arith in
      ground (
        arith,
        n,
        j,
        byte_at-append i (take start buffer) (object ++ rest),
        byte_at-append (i - start) object rest,
        byte_at-drop (i - start - length object) (start + length object) buffer,
      )

  -- The object that was written is read again.
  read-write_at : take (length object) (drop start (write_at start object buffer)) ≡ object
  unfolding write_at
  read-write_at =
      let n = length-take start buffer (omega arith) in
      let rest = object ++ drop (start + length object) buffer in
      let e : drop start (take start buffer ++ rest) ≡ rest =
        subst (λ k. drop k (take start buffer ++ rest) ≡ rest) n
          (drop-append (take start buffer) rest) in
      rw e (take-append object (drop (start + length object) buffer))

-- A pointer to an object in the buffer.
valid_pointer :
    (size offset : ℕ) (buffer : Bytes)
    → offset + size < u64_mod
    → offset + size ≤ length buffer
    → get_valid_pointer size offset 0 buffer ≡ ok offset
unfolding get_valid_pointer add64
valid_pointer size offset buffer small fits =
    let a : size * 0 % u64_mod ≡ 0 = omega arith in
    let b : (offset + 0) % u64_mod ≡ offset = omega arith in
    let c : (offset + size) % u64_mod ≡ offset + size = omega arith in rw (a, b, c) (ground arith)

module _ (size bound offset delta : ℕ) (buffer buffer' : Bytes) (value : ℕ)
    (width : bound ≡ byte_bound size) (some_bound : 0 < bound) (small : offset + size < u64_mod)
    (old : get_number size offset 0 buffer ≡ ok value)
    (done : apply_relocation size bound offset delta buffer ≡ ok buffer') where
  abbrev new_value : ℕ
  new_value = (value + delta % bound) % bound

  abbrev object : Bytes
  object = to_bytes size new_value

  fits : offset + length object ≤ length buffer
  fits =
      let b = get_number_bounds size offset 0 buffer value (omega arith) old in
      omega (arith, b, length-to_bytes size new_value)

  written : buffer' ≡ write_at offset object buffer
  unfolding apply_relocation set_object
  written =
      let n = length-to_bytes size new_value in
      let e =
        rw
          (
            apply_relocation,
            old,
            set_object,
            valid_pointer (length object) offset buffer (omega (arith, n)) fits,
          )
          at done in
      sym (ok_injective e)

  -- The value at the offset is the old one and the distance, and the other bytes are as they were.
  relocated :
      (get_number size offset 0 buffer' ≡ ok new_value)
      × ((i : ℕ) → (i < offset) ⊎ (offset + size ≤ i) → byte_at i buffer' ≡ byte_at i buffer)
  unfolding get_number
  relocated =
      let n = length-to_bytes size new_value in
      let long = length-write_at offset object buffer fits in
      let there =
        valid_pointer size offset (write_at offset object buffer) small
          (omega (arith, long, fits, n)) in
      let back : take size (drop offset (write_at offset object buffer)) ≡ object =
        subst (λ k. take k (drop offset (write_at offset object buffer)) ≡ object) n
          (read-write_at offset object buffer fits) in
      let in_bound : new_value < byte_bound size = rw (← width) (omega arith) in
      (
        rw
            (
              written,
              get_number,
              get_object,
              there,
              back,
              from_bytes-to_bytes size new_value in_bound,
            )
            refl,
        λ i out. rw written (byte_at-write_at offset object buffer fits i (rw n out)),
      )

-- A relocation of the type `IMAGE_REL_BASED_DIR64` that ends normally, in a page that does not pass 4 GB, adds the
-- distance to the 64-bit word at its offset in the page, and changes no other byte.
pub apply_entry_dir64 :
    (delta virtual_address offset value : ℕ) (buffer buffer' : Bytes)
    → offset < 0x1000
    → virtual_address + 0x1000 ≤ u32_mod
    → get_number 8 (virtual_address + offset) 0 buffer ≡ ok value
    → apply_entry delta virtual_address (0x1000 * image_rel_based_dir64 + offset) buffer
      ≡ ok buffer'
    → (get_number 8 (virtual_address + offset) 0 buffer' ≡ ok ((value + delta % u64_mod) % u64_mod))
      × ((i : ℕ)
          → (i < virtual_address + offset) ⊎ (virtual_address + offset + 8 ≤ i)
          → byte_at i buffer' ≡ byte_at i buffer)
unfolding apply_entry
apply_entry_dir64 delta virtual_address offset value buffer buffer' page image old done =
    let type : (0x1000 * 10 + offset) / 0x1000 ≡ 10 = omega arith in
    let total : (virtual_address + (0x1000 * 10 + offset) % 0x1000) % u32_mod
        ≡ virtual_address + offset =
      omega arith in
    let applied = rw (apply_entry, type, total) at done in
    relocated 8 u64_mod (virtual_address + offset) delta buffer buffer' value refl (omega arith)
      (omega arith) old applied

-- The accessor at an offset 4 bytes behind another one reads the entries from the third on.
get_number-shifted :
    (entries i : ℕ) (buffer : Bytes)
    → get_number 2 (entries + 4) i buffer ≡ get_number 2 entries (i + 2) buffer
unfolding get_number get_object get_valid_pointer add64
get_number-shifted entries i buffer =
    let e : (entries + 4 + 2 * i % u64_mod) % u64_mod
        ≡ (entries + 2 * (i + 2) % u64_mod) % u64_mod =
      omega arith in
    rw e refl

apply_entries-shifted :
    (delta virtual_address entries rounds i : ℕ) (buffer : Bytes)
    → apply_entries delta virtual_address (entries + 4) rounds i buffer
      ≡ apply_entries delta virtual_address entries rounds (i + 2) buffer
unfolding apply_entries
apply_entries-shifted delta virtual_address entries zero i buffer = refl
apply_entries-shifted delta virtual_address entries (suc rounds) i buffer =
    let j : i + 1 + 2 ≡ i + 2 + 1 = omega arith in
    rw (get_number-shifted entries i buffer) (
      ap (λ (k : ℕ → Result Bytes). get_number 2 entries (i + 2) buffer >>= k)
        (fun_ext λ entry.
          ap (λ (k : Bytes → Result Bytes). apply_entry delta virtual_address entry buffer >>= k)
            (fun_ext λ buffer'.
              apply_entries-shifted delta virtual_address entries rounds (i + 1) buffer'
              ∙ ap (λ m. apply_entries delta virtual_address entries rounds m buffer') j)))

-- In a build without the Windows SDK the header of a block has 4 bytes too many: of each block that is
-- applied the first two entries are left out.
pub apply_entries_skips :
    (delta offset : ℕ) (r : BaseRelocation) (buffer : Bytes)
    → is_last false r ≡ false
    → (entry_count true r ≡ entry_count false r + 2)
      × (apply_entries delta r.virtual_address
            (entries_of false offset)
            (entry_count false r)
            0
            buffer
          ≡ apply_entries delta r.virtual_address
              (entries_of true offset)
              (entry_count false r)
              2
              buffer)
unfolding is_last entry_count entries_of sizeof_base_relocation
apply_entries_skips delta offset r buffer l =
    let e : offset + 12 ≡ offset + 8 + 4 = omega arith in
    (
      ground arith,
      rw e (
          apply_entries-shifted delta r.virtual_address (offset + 8) (entry_count false r) 0
            buffer),
    )
