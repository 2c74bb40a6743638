-- ===== src/Registry/Listing.antt =====
-- src/windows-emulator/registry/hive_parser.cpp: what a hive file says of a key, read afresh for each
-- question. A key is the place of its blocks here; nothing is remembered between two reads.
use emulator_momo.Common.{
  ℕ, zero, suc, ◌+◌, Bool, true, false, Option, none, some, List, [], ◌∷◌, if◌then◌else◌, Result,
  ok, ◌>>=◌, same_name, to_lower,
}
use emulator_momo.Serialization.Buffer.{Bytes}
use emulator_momo.Registry.File.{rounds_int, at_root, read_file_data}
use emulator_momo.Registry.Blocks.{read_offsets}
use emulator_momo.Registry.Hive.{
  HiveValue, RawHiveValue, Place, read_value, read_sub_key, sub_key_rounds,
}

-- `n` results from the index `i` on, in order, all of which have to be there.
unfoldable pub collect {ℓ} : {A : Type ℓ} → (ℕ → Result A) → ℕ → ℕ → Result (List A)
collect read zero i = ok []
collect read (suc n) i = read i >>= λ a. collect read n (i + 1) >>= λ rest. ok (a ∷ rest)

-- The last value of a name counts, and the first sub key.
unfoldable pub last_named : Bytes → List RawHiveValue → Option RawHiveValue
last_named name [] = none
last_named name (v ∷ vs) = elim (last_named name vs) [
  | some w ↦ some w
  | none ↦ if same_name (to_lower v.name) name then some v else none
]

unfoldable pub first_named : Bytes → List (Bytes × Place) → Option Place
first_named name [] = none
first_named name ((n, p) ∷ ps) = if same_name n name then some p else first_named name ps

pub record Listing : Type 0 where
  pub values : List RawHiveValue
  pub keys : List (Bytes × Place)

module _ (file : Bytes) where
  unfoldable pub listed_keys : Place → Result (List (Bytes × Place))
  listed_keys p = read_offsets file (at_root p.subkey_block_offset) >>= λ item.
      collect (read_sub_key file p) (sub_key_rounds item) 0

  -- All that a key lists. It is there only if each of its blocks is.
  unfoldable pub listing : Place → Result Listing
  listing p = collect (read_value file p) (rounds_int p.value_count) 0 >>= λ vs.
      listed_keys p >>= λ ks. ok (record { values = vs; keys = ks })

  unfoldable pub loaded : RawHiveValue → Result HiveValue
  loaded v = read_file_data file (at_root v.data_offset) v.data_length >>= λ bytes.
      ok (record { type = v.type; name = v.name; bytes = bytes })

  unfoldable pub loaded_option : Option RawHiveValue → Result (Option HiveValue)
  unfolding loaded
  loaded_option none = ok none
  loaded_option (some v) = loaded v >>= λ w. ok (some w)

  -- The value `name` of the key at `p`.
  unfoldable pub value_of : Bytes → Place → Result (Option HiveValue)
  unfolding loaded_option
  value_of name p = listing p >>= λ l. loaded_option (last_named name l.values)

  -- The walk along a path, with what is asked of the key at its end.
  unfoldable pub follow : {A : Type 0} → (Place → Result A) → A → List Bytes → Place → Result A
  follow ask missing [] p = ask p
  follow ask missing (part ∷ path) p = listing p >>= λ l. elim (first_named part l.keys) [
    | none ↦ ok missing
    | some q ↦ follow ask missing path q
  ]

  unfoldable pub listed_value : List Bytes → Bytes → Place → Result (Option HiveValue)
  unfolding follow value_of
  listed_value path name p = follow (value_of name) none path p

  unfoldable pub listed_sub_key : List Bytes → Place → Result Bool
  unfolding follow
  listed_sub_key path p = follow (λ q. ok true) false path p
