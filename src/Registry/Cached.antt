-- ===== src/Registry/Cached.antt =====
-- src/windows-emulator/registry/hive_parser.cpp: the keys that agree with their file, and that parsing
-- gives such keys.
use emulator_momo.Common.{
  ◌≡◌, refl, sym, inl, inr, true, false, Option, none, some, List, [], ◌∷◌, if◌then◌else◌,
  Bool-cases, Option-cases, ok, same_name, same_name_self, same_name→eq, to_lower, arith,
}
use emulator_momo.Serialization.Buffer.{Bytes}
use emulator_momo.Registry.File.{at_root, read_file_data}
use emulator_momo.Registry.Hive.{
  RawHiveValue, Values, Place, HiveKey, hive_key, SubKeys, no_keys, sub_key, place_of, new_key,
  find_value, assign_value, find_key, emplace_key,
}
use emulator_momo.Registry.Listing.{last_named, first_named, Listing, listing}

pub find_value-assign_value :
    (n m : Bytes) (v : RawHiveValue) (vs : Values)
    → find_value m (assign_value n v vs) ≡ (if same_name n m then some v else find_value m vs)
unfolding find_value assign_value
find_value-assign_value n m v [] = refl
find_value-assign_value n m v ((j, w) ∷ vs) = elim (Bool-cases (same_name j n)) [
  | inl e ↦ let here = same_name→eq j n e in rw (e, here) (ground (arith))
  | inr e ↦ rw e (
      ground (
        arith,
        find_value-assign_value n m v vs,
        same_name→eq j m,
        same_name→eq n m,
        same_name_self m,
      ))
]

abbrev pub place_at : Option HiveKey → Option Place
place_at none = none
place_at (some k) = some (place_of k)

abbrev pub or_else : Option Place → Option Place → Option Place
or_else none q = q
or_else (some p) q = some p

pub or_else-none : (p : Option Place) → or_else p none ≡ p
or_else-none none = refl
or_else-none (some p) = refl

pub find_key-emplace_key :
    (n m : Bytes) (q : Place) (ks : SubKeys)
    → place_at (find_key m (emplace_key n (new_key q) ks))
      ≡ or_else (place_at (find_key m ks)) (if same_name n m then some q else none)
unfolding find_key emplace_key
find_key-emplace_key n m q no_keys = elim (Bool-cases (same_name n m)) [
  | inl e ↦ rw e refl
  | inr e ↦ rw e refl
]
find_key-emplace_key n m q (sub_key j k ks) = elim (Bool-cases (same_name j n)) [
  | inl e ↦ elim (Bool-cases (same_name j m)) [
    | inl f ↦ rw (e, f) refl
    | inr f ↦
        let here = same_name→eq j n e in
        let g : same_name n m ≡ false = rw (← here) f in
        rw (e, f, g) (sym (or_else-none (place_at (find_key m ks))))
  ]
  | inr e ↦ elim (Bool-cases (same_name j m)) [
    | inl f ↦ rw (e, f) refl
    | inr f ↦ rw (e, f) (find_key-emplace_key n m q ks)
  ]
]

-- The values that are found are those of the listing; what is loaded is what the file has.
pub record SameValue (file : Bytes) (v w : RawHiveValue) : Type 0 where
  pub type : v.type ≡ w.type
  pub name : v.name ≡ w.name
  pub offset : v.data_offset ≡ w.data_offset
  pub length : v.data_length ≡ w.data_length
  pub loaded :
      v.parsed ≡ true → read_file_data file (at_root v.data_offset) v.data_length ≡ ok v.bytes

abbrev pub SameOption : Bytes → Option RawHiveValue → Option RawHiveValue → Type 0
SameOption file none none = Unit {0}
SameOption file none (some w) = ⊥
SameOption file (some v) none = ⊥
SameOption file (some v) (some w) = SameValue file v w

abbrev pub FindsValues : Bytes → Listing → Values → Type 0
FindsValues file l vs = (n : Bytes) → SameOption file (find_value n vs) (last_named n l.values)

abbrev pub FindsKeys : Listing → SubKeys → Type 0
FindsKeys l ks = (n : Bytes) → place_at (find_key n ks) ≡ first_named n l.keys

-- A key that is not parsed holds nothing; one that is parsed finds what the file lists, and so do the
-- keys below it.
unfoldable mutual
  pub Cached : Bytes → HiveKey → Type 0
  Cached file (hive_key p false vs ks) = (vs ≡ []) × (ks ≡ no_keys)
  Cached file (hive_key p true vs ks) =
      (l : Listing) × (listing file p ≡ ok l)
      × FindsValues file l vs
      × FindsKeys l ks
      × CachedAll file ks

  pub CachedAll : Bytes → SubKeys → Type 0
  CachedAll file no_keys = Unit {0}
  CachedAll file (sub_key n k ks) = Cached file k × CachedAll file ks

-- A list of values put into a map in turn.
unfoldable pub assign_all : List RawHiveValue → Values → Values
assign_all [] m = m
assign_all (v ∷ vs) m = assign_all vs (assign_value (to_lower v.name) v m)

unfoldable pub emplace_all : List (Bytes × Place) → SubKeys → SubKeys
emplace_all [] ks = ks
emplace_all ((n, q) ∷ qs) ks = emplace_all qs (emplace_key n (new_key q) ks)

abbrev pub or_value : Option RawHiveValue → Option RawHiveValue → Option RawHiveValue
or_value none v = v
or_value (some w) v = some w

pub find_value-assign_all :
    (n : Bytes) (vs : List RawHiveValue) (m : Values)
    → find_value n (assign_all vs m) ≡ or_value (last_named n vs) (find_value n m)
unfolding assign_all last_named
find_value-assign_all n [] m = refl
find_value-assign_all n (v ∷ vs) m = ground (
  arith,
  find_value-assign_all n vs (assign_value (to_lower v.name) v m),
  find_value-assign_value (to_lower v.name) n v m,
)

pub find_key-emplace_all :
    (n : Bytes) (qs : List (Bytes × Place)) (ks : SubKeys)
    → place_at (find_key n (emplace_all qs ks))
      ≡ or_else (place_at (find_key n ks)) (first_named n qs)
unfolding emplace_all first_named
find_key-emplace_all n [] ks = sym (or_else-none _)
find_key-emplace_all n ((j, q) ∷ qs) ks =
    rw (find_key-emplace_all n qs (emplace_key j (new_key q) ks), find_key-emplace_key j n q ks)
      (elim (Option-cases (place_at (find_key n ks))) [
        | inl e ↦ rw e (elim (Bool-cases (same_name j n)) [ inl f ↦ rw f refl | inr f ↦ rw f refl ])
        | inr e ↦ rw e.1 refl
      ])

CachedAll-emplace_key :
    (file : Bytes) (n : Bytes) (q : Place) (ks : SubKeys)
    → CachedAll file ks
    → CachedAll file (emplace_key n (new_key q) ks)
unfolding emplace_key Cached
CachedAll-emplace_key file n q no_keys c = ((refl, refl), tt)
CachedAll-emplace_key file n q (sub_key j k ks) c = elim (Bool-cases (same_name j n)) [
  | inl e ↦ rw e c
  | inr e ↦ rw e (c.0, CachedAll-emplace_key file n q ks c.1)
]

pub CachedAll-emplace_all :
    (file : Bytes) (qs : List (Bytes × Place)) (ks : SubKeys)
    → CachedAll file ks
    → CachedAll file (emplace_all qs ks)
unfolding emplace_all
CachedAll-emplace_all file [] ks c = c
CachedAll-emplace_all file ((n, q) ∷ qs) ks c =
    CachedAll-emplace_all file qs (emplace_key n (new_key q) ks)
      (CachedAll-emplace_key file n q ks c)
