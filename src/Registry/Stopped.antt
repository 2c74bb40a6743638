-- ===== src/Registry/Stopped.antt =====
-- src/windows-emulator/registry/hive_parser.cpp: what a key holds after a `parse` that throws.
use emulator_momo.Common.{
  ℕ, zero, suc, ◌+◌, ◌≡◌, refl, ap, ◌∙◌, inl, inr, true, false, Option, some, List, [], ◌∷◌,
  Option-cases, Result, Result-cases, ok, thrown, to_lower, All, arith,
}
use emulator_momo.Serialization.Buffer.{Bytes}
use emulator_momo.Registry.File.{rounds_int, at_root, read_file_data}
use emulator_momo.Registry.Hive.{
  HiveValue, RawHiveValue, Values, Place, HiveKey, hive_key, SubKeys, no_keys, new_key,
  assign_value, find_value, read_value, parse_values, parse_items, parse, load_value, hive_value,
  value_in,
}
use emulator_momo.Registry.Listing.{last_named, loaded, loaded_option}
use emulator_momo.Registry.Cached.{assign_all, find_value-assign_all}
use emulator_momo.Registry.Parsing.{read_value-fresh}

abbrev Fresh : List RawHiveValue → Type 0
Fresh = All (λ (v : RawHiveValue). v.parsed ≡ false)

module _ (file : Bytes) where
  -- The values from the index `i` on, up to the first one that cannot be read.
  unfoldable pub reached : Place → ℕ → ℕ → List RawHiveValue
  reached p zero i = []
  reached p (suc rounds) i = elim (read_value file p i) [
    | ok v ↦ v ∷ reached p rounds (i + 1)
    | thrown ↦ []
  ]

  parse_values-reached :
      (p : Place) (n i : ℕ) (m : Values)
      → (parse_values file p n i m).1 ≡ assign_all (reached p n i) m
  unfolding parse_values reached assign_all
  parse_values-reached p zero i m = refl
  parse_values-reached p (suc n) i m = elim (Result-cases (read_value file p i)) [
    | inl e ↦ rw (parse_values, reached, e) refl
    | inr (v, e) ↦
        rw (parse_values, reached, e)
          (parse_values-reached p n (i + 1) (assign_value (to_lower v.name) v m))
  ]

  pub reached-Fresh : (p : Place) (n i : ℕ) → Fresh (reached p n i)
  unfolding reached
  reached-Fresh p zero i = tt
  reached-Fresh p (suc n) i = elim (Result-cases (read_value file p i)) [
    | inl e ↦ rw (reached, e) tt
    | inr (v, e) ↦ rw (reached, e) (read_value-fresh file p i v e, reached-Fresh p n (i + 1))
  ]

  -- The key that a parse leaves, whether it throws or not.
  pub parse-reached :
      (p : Place)
      → (ks : SubKeys) × ((parse file (new_key p)).1
          ≡ hive_key p true (assign_all (reached p (rounds_int p.value_count) 0) []) ks)
  unfolding parse
  parse-reached p =
      let values = parse_values-reached p (rounds_int p.value_count) 0 [] in
      elim (parse_values file p (rounds_int p.value_count) 0 []).0
        as (λ r.
          let vs = (parse_values file p (rounds_int p.value_count) 0 []).1 in
          let left : Result (Unit {0}) × HiveKey = elim r [
            | ok _ ↦
                ((parse_items file p no_keys).0, hive_key p true vs (parse_items file p no_keys).1)
            | thrown ↦ (thrown, hive_key p true vs no_keys)
          ] in
          (ks : SubKeys) × (left.1
            ≡ hive_key p true (assign_all (reached p (rounds_int p.value_count) 0) []) ks)) [
              | ok _ ↦ (
                (parse_items file p no_keys).1,
                ap (λ vs. hive_key p true vs (parse_items file p no_keys).1) values,
              )
              | thrown ↦ (no_keys, ap (λ vs. hive_key p true vs no_keys) values)
            ]

  load_value-Fresh :
      (v : RawHiveValue)
      → v.parsed ≡ false
      → (elim (load_value file v) as (λ _. Result (Option HiveValue)) [
        | ok w ↦ ok (some (hive_value w))
        | thrown ↦ thrown
      ])
        ≡ loaded_option file (some v)
  unfolding load_value loaded_option loaded
  load_value-Fresh v e =
      elim (Result-cases (read_file_data file (at_root v.data_offset) v.data_length)) [
        | inl r ↦ rw (load_value, e, loaded_option, loaded, r) refl
        | inr (bytes, r) ↦ rw (load_value, e, loaded_option, loaded, r) refl
      ]

  last_named-Fresh :
      (name : Bytes) (vs : List RawHiveValue) (v : RawHiveValue)
      → Fresh vs
      → last_named name vs ≡ some v
      → v.parsed ≡ false
  unfolding last_named
  last_named-Fresh name [] v f e = absurd (cc e)
  last_named-Fresh name (w ∷ vs) v f e = ground (arith, f.0, last_named-Fresh name vs v f.1)

  found-Fresh :
      (name : Bytes) (vs : List RawHiveValue)
      → find_value name (assign_all vs []) ≡ last_named name vs
  unfolding find_value
  found-Fresh name vs =
      find_value-assign_all name vs []
      ∙ elim (Option-cases (last_named name vs)) [ inl e ↦ rw e refl | inr (v, e) ↦ rw e refl ]

  -- A key with values that were not loaded answers from the file.
  pub value_in-Fresh :
      (name : Bytes) (p : Place) (vs : List RawHiveValue) (ks : SubKeys)
      → Fresh vs
      → (value_in file name (hive_key p true (assign_all vs []) ks)).0
        ≡ loaded_option file (last_named name vs)
  unfolding value_in loaded_option
  value_in-Fresh name p vs ks f =
      let found = found-Fresh name vs in
      elim (Option-cases (last_named name vs)) [
        | inl e ↦ rw (value_in, found, e, loaded_option) refl
        | inr (v, e) ↦
            let h = load_value-Fresh v (last_named-Fresh name vs v f e) in
            elim (Result-cases (load_value file v)) [
              | inl r ↦ let h' = rw r at h in rw (value_in, found, e, r) h'
              | inr (w, r) ↦ let h' = rw r at h in rw (value_in, found, e, r) h'
            ]
      ]
