-- ===== src/Registry/Refines.antt =====
-- src/windows-emulator/registry/hive_parser.hpp and hive_parser.cpp: the keys that are kept answer as a
-- fresh reading of the file does.
use emulator_momo.Common.{
  ◌≡◌, refl, sym, subst, inl, inr, Bool, true, false, Option, none, some, if◌then◌else◌, Bool-cases,
  Result, ok, thrown, ◌>>=◌, same_name, same_name→eq, arith,
}
use emulator_momo.Serialization.Buffer.{Bytes}
use emulator_momo.Registry.File.{at_root, read_file_data}
use emulator_momo.Registry.Hive.{
  HiveValue, RawHiveValue, Values, Place, HiveKey, hive_key, SubKeys, place_of, hive_value,
  find_value, assign_value, parse, load_value, value_in, get_value,
}
use emulator_momo.Registry.Listing.{last_named, Listing, listing, loaded, loaded_option, value_of}
use emulator_momo.Registry.Cached.{
  SameValue, SameOption, FindsValues, FindsKeys, Cached, CachedAll, find_value-assign_value,
}
use emulator_momo.Registry.Parsing.{ParseResult, parse-ParseResult}

-- The answer is that of the file, and the key that is left agrees with the file; or both throw.
abbrev pub Agrees : {A : Type 0} → Bytes → Place → Result A → Result A × HiveKey → Type 0
Agrees file p (ok r) a = (a.0 ≡ ok r) × Cached file a.1 × (place_of a.1 ≡ p)
Agrees file p thrown a = a.0 ≡ thrown

assign-FindsValues :
    (file : Bytes) (l : Listing) (vs : Values) (name : Bytes) (v w : RawHiveValue)
    → FindsValues file l vs
    → last_named name l.values ≡ some w
    → SameValue file v w
    → FindsValues file l (assign_value name v vs)
assign-FindsValues file l vs name v w fv e s n =
    rw (find_value-assign_value name n v vs) (elim (Bool-cases (same_name name n)) [
      | inl h ↦ rw (h, ← same_name→eq name n h, e) s
      | inr h ↦ rw h (fv n)
    ])

abbrev with_bytes : RawHiveValue → Bytes → HiveValue
with_bytes v bytes = record { type = v.type; name = v.name; bytes = bytes }

abbrev load_bytes : RawHiveValue → Bytes → RawHiveValue
load_bytes v bytes = record v { bytes = bytes; parsed = true }

module _ (file : Bytes) (p : Place) (l : Listing) (vs : Values) (ks : SubKeys)
    (listed : listing file p ≡ ok l) (fv : FindsValues file l vs) (fk : FindsKeys l ks)
    (c : CachedAll file ks) where
  pub cached : Cached file (hive_key p true vs ks)
  unfolding Cached
  cached = (l, listed, fv, fk, c)

  module _ (name : Bytes) (v w : RawHiveValue) (e : last_named name l.values ≡ some w)
      (s : SameValue file v w) where
    assigned :
        (u : RawHiveValue)
        → SameValue file u w
        → Cached file (hive_key p true (assign_value name u vs) ks)
    unfolding Cached
    assigned u same = (l, listed, assign-FindsValues file l vs name u w fv e same, fk, c)

    same_hive_value :
        (bytes : Bytes) → ok (some (with_bytes v bytes)) ≡ ok (some (with_bytes w bytes))
    same_hive_value bytes = ground arith

    now_loaded :
        (bytes : Bytes)
        → read_file_data file (at_root v.data_offset) v.data_length ≡ ok bytes
        → SameValue file (load_bytes v bytes) w
    now_loaded bytes r = record {
      type = s.type;
      name = s.name;
      offset = s.offset;
      length = s.length;
      loaded = λ _. r;
    }

    load_new :
        (read : Result Bytes)
        → read_file_data file (at_root v.data_offset) v.data_length ≡ read
        → Agrees file p
            ((read >>= λ bytes. ok (with_bytes w bytes)) >>= λ u. ok (some u))
            (elim (read >>= λ bytes. ok (load_bytes v bytes)) [
              | ok u ↦ (ok (some (hive_value u)), hive_key p true (assign_value name u vs) ks)
              | thrown ↦ (thrown, hive_key p true vs ks)
            ])
    load_new (ok bytes) r =
        (same_hive_value bytes, assigned (load_bytes v bytes) (now_loaded bytes r), refl)
    load_new thrown r = refl

    load_if :
        (old : Bool)
        → v.parsed ≡ old
        → Agrees file p
            ((read_file_data file (at_root v.data_offset) v.data_length >>= λ bytes.
                ok (with_bytes w bytes))
              >>= λ u. ok (some u))
            (elim (if old
              then ok v
              else (read_file_data file (at_root v.data_offset) v.data_length >>= λ bytes.
                  ok (load_bytes v bytes))) [
                    | ok u ↦ (ok (some (hive_value u)), hive_key p true (assign_value name u vs) ks)
                    | thrown ↦ (thrown, hive_key p true vs ks)
                  ])
    load_if true h = rw (s.loaded h) (same_hive_value v.bytes, assigned v s, refl)
    load_if false h = load_new _ refl

    -- A value that is found is loaded, or has been.
    loaded-Agrees : Agrees file p (loaded_option file (some w)) (elim (load_value file v) [
      | ok u ↦ (ok (some (hive_value u)), hive_key p true (assign_value name u vs) ks)
      | thrown ↦ (thrown, hive_key p true vs ks)
    ])
    unfolding loaded_option load_value loaded
    loaded-Agrees = rw (← s.offset, ← s.length) (load_if v.parsed refl)

  value_of-option :
      (name : Bytes) (o t : Option RawHiveValue)
      → last_named name l.values ≡ t
      → SameOption file o t
      → Agrees file p (loaded_option file t) (elim o [
        | none ↦ (ok none, hive_key p true vs ks)
        | some v ↦ elim (load_value file v) [
          | ok w ↦ (ok (some (hive_value w)), hive_key p true (assign_value name w vs) ks)
          | thrown ↦ (thrown, hive_key p true vs ks)
        ]
      ])
  value_of-option name none none e s = unfold loaded_option in (refl, cached, refl)
  value_of-option name none (some w) e s = absurd s
  value_of-option name (some v) none e s = absurd s
  value_of-option name (some v) (some w) e s = loaded-Agrees name v w e s

  value_in-Agrees :
      (name : Bytes)
      → Agrees file p
          (loaded_option file (last_named name l.values))
          (value_in file name (hive_key p true vs ks))
  unfolding value_in
  value_in-Agrees name = value_of-option name (find_value name vs) _ refl (fv name)

-- What is asked of a key once it is parsed.
pub after_parse :
    {A : Type 0} (file : Bytes) (k : HiveKey) (ask : Listing → Result A)
    (use_key : HiveKey → Result A × HiveKey)
    → Cached file k
    → ((l : Listing) (vs : Values) (ks : SubKeys)
        → listing file (place_of k) ≡ ok l
        → FindsValues file l vs
        → FindsKeys l ks
        → CachedAll file ks
        → Agrees file (place_of k) (ask l) (use_key (hive_key (place_of k) true vs ks)))
    → Agrees file (place_of k) (listing file (place_of k) >>= ask) (elim (parse file k).0 [
      | ok _ ↦ use_key (parse file k).1
      | thrown ↦ (thrown, (parse file k).1)
    ])
after_parse {A} file k ask use_key c h =
    go (listing file (place_of k)) (parse file k) refl (parse-ParseResult file k c)
  where
    go :
        (l : Result Listing) (a : Result (Unit {0}) × HiveKey)
        → listing file (place_of k) ≡ l
        → ParseResult file (place_of k) l a
        → Agrees {A = A} file
            (place_of k)
            (l >>= ask)
            (elim a.0 [ ok _ ↦ use_key a.1 | thrown ↦ (thrown, a.1) ])
    go (ok l) a e (vs, ks, r, fv, fk, c') =
        subst
          (λ (x : Result (Unit {0}) × HiveKey).
            Agrees {A = A} file (place_of k) (ask l)
              (elim x.0 [ ok _ ↦ use_key x.1 | thrown ↦ (thrown, x.1) ]))
          (sym r) (h l vs ks e fv fk c')
    go thrown a e r = rw r refl

pub get_value-Agrees :
    (file : Bytes) (name : Bytes) (k : HiveKey)
    → Cached file k
    → Agrees file (place_of k) (value_of file name (place_of k)) (get_value file name k)
unfolding get_value value_of
get_value-Agrees file name k c =
    after_parse file k (λ l. loaded_option file (last_named name l.values)) (value_in file name) c
      λ l vs ks e fv fk c'. value_in-Agrees file (place_of k) l vs ks e fv fk c' name
