-- ===== src/Registry/Parsing.antt =====
-- src/windows-emulator/registry/hive_parser.cpp: `hive_key::parse` gives a key that finds what the file
-- lists, or it throws and the listing fails.
use mathlib.Core.Bool.{false≢true}
use emulator_momo.Common.{
  ℕ, zero, suc, ◌+◌, ◌≡◌, refl, sym, ap, ◌∙◌, subst, inl, inr, true, false, none, List, [], ◌∷◌,
  Bool-cases, Option-cases, Result, ok, thrown, ◌>>=◌, bind_ok, ok_injective, same_name, to_lower,
  All, arith,
}
use emulator_momo.Serialization.Buffer.{Bytes}
use emulator_momo.Registry.File.{rounds_int, at_root}
use emulator_momo.Registry.Blocks.{read_offsets}
use emulator_momo.Registry.Hive.{
  RawHiveValue, Values, Place, HiveKey, hive_key, SubKeys, no_keys, place_of, new_key, assign_value,
  emplace_key, find_value, find_key, read_value, read_sub_key, sub_key_rounds, parse_values,
  parse_sub_keys, parse_items, parse,
}
use emulator_momo.Registry.Listing.{collect, last_named, Listing, listed_keys, listing}
use emulator_momo.Registry.Cached.{
  or_value, SameOption, FindsValues, FindsKeys, Cached, CachedAll, assign_all, emplace_all,
  find_value-assign_all, find_key-emplace_all, CachedAll-emplace_all,
}

-- What a loop of `parse` makes of the list that it reads, or that it stops.
abbrev Loop {ℓ} :
    {A : Type ℓ} {S : Type 0} → (List A → S) → Result (List A) → Result (Unit {0}) × S → Type 0
Loop all (ok as_) a = a ≡ (ok tt, all as_)
Loop all thrown a = a.0 ≡ thrown

Loop-cons {ℓ} :
    {A : Type ℓ} {S : Type 0} (all : List A → S) (x : A) (r : Result (List A))
    (a : Result (Unit {0}) × S)
    → Loop (λ rest. all (x ∷ rest)) r a
    → Loop all (r >>= λ rest. ok (x ∷ rest)) a
Loop-cons all x (ok xs) a h = h
Loop-cons all x thrown a h = h

module _ (file : Bytes) (p : Place) where
  parse_values-Loop :
      (n i : ℕ) (m : Values)
      → Loop (λ vs. assign_all vs m) (collect (read_value file p) n i) (parse_values file p n i m)
  unfolding parse_values collect assign_all
  parse_values-Loop zero i m = refl
  parse_values-Loop (suc n) i m =
      elim (read_value file p i)
        as (λ r.
          Loop (λ vs. assign_all vs m)
            (r >>= λ a. collect (read_value file p) n (i + 1) >>= λ rest. ok (a ∷ rest))
            (elim r [
              | ok v ↦ parse_values file p n (i + 1) (assign_value (to_lower v.name) v m)
              | thrown ↦ (thrown, m)
            ])) [
              | ok v ↦
                  Loop-cons (λ vs. assign_all vs m) v _ _
                    (parse_values-Loop n (i + 1) (assign_value (to_lower v.name) v m))
              | thrown ↦ refl
            ]

  parse_sub_keys-Loop :
      (n i : ℕ) (ks : SubKeys)
      → Loop
          (λ qs. emplace_all qs ks)
          (collect (read_sub_key file p) n i)
          (parse_sub_keys file p n i ks)
  unfolding parse_sub_keys collect emplace_all
  parse_sub_keys-Loop zero i ks = refl
  parse_sub_keys-Loop (suc n) i ks =
      elim (read_sub_key file p i)
        as (λ r.
          Loop (λ qs. emplace_all qs ks)
            (r >>= λ a. collect (read_sub_key file p) n (i + 1) >>= λ rest. ok (a ∷ rest))
            (elim r [
              | ok (name, q) ↦ parse_sub_keys file p n (i + 1) (emplace_key name (new_key q) ks)
              | thrown ↦ (thrown, ks)
            ])) [
              | ok (name, q) ↦
                  Loop-cons (λ qs. emplace_all qs ks) (name, q) _ _
                    (parse_sub_keys-Loop n (i + 1) (emplace_key name (new_key q) ks))
              | thrown ↦ refl
            ]

  parse_items-Loop :
      (ks : SubKeys) → Loop (λ qs. emplace_all qs ks) (listed_keys file p) (parse_items file p ks)
  unfolding parse_items listed_keys
  parse_items-Loop ks =
      elim (read_offsets file (at_root p.subkey_block_offset))
        as (λ r.
          Loop (λ qs. emplace_all qs ks)
            (r >>= λ item. collect (read_sub_key file p) (sub_key_rounds item) 0)
            (elim r [
              | ok item ↦ parse_sub_keys file p (sub_key_rounds item) 0 ks
              | thrown ↦ (thrown, ks)
            ])) [ ok item ↦ parse_sub_keys-Loop (sub_key_rounds item) 0 ks | thrown ↦ refl ]

  -- A value of the listing has not been loaded.
  pub read_value-fresh : (i : ℕ) (v : RawHiveValue) → read_value file p i ≡ ok v → v.parsed ≡ false
  unfolding read_value
  read_value-fresh i v e = ground arith

  collect-fresh :
      (n i : ℕ) (vs : List RawHiveValue)
      → collect (read_value file p) n i ≡ ok vs
      → All (λ v. v.parsed ≡ false) vs
  unfolding collect
  collect-fresh zero i [] e = tt
  collect-fresh zero i (v ∷ vs) e = cc
  collect-fresh (suc n) i vs e =
      let (v, ev, e') =
        bind_ok (read_value file p i)
          (λ a. collect (read_value file p) n (i + 1) >>= λ rest. ok (a ∷ rest)) vs e in
      let (rest, er, e'') =
        bind_ok (collect (read_value file p) n (i + 1)) (λ rest. ok (v ∷ rest)) vs e' in
      subst (All (λ w. w.parsed ≡ false)) (ok_injective e'')
        (read_value-fresh i v ev, collect-fresh n (i + 1) rest er)

  last_named-fresh :
      (n : Bytes) (vs : List RawHiveValue)
      → All (λ v. v.parsed ≡ false) vs
      → SameOption file (or_value (last_named n vs) none) (last_named n vs)
  unfolding last_named
  last_named-fresh n [] a = tt
  last_named-fresh n (v ∷ vs) a = elim (Option-cases (last_named n vs)) [
    | inl e ↦ rw e (elim (Bool-cases (same_name (to_lower v.name) n)) [
      | inl f ↦ rw f (record {
        type = refl;
        name = refl;
        offset = refl;
        length = refl;
        loaded = λ loaded_. absurd (false≢true (sym a.0 ∙ loaded_));
      })
      | inr f ↦ rw f tt
    ])
    | inr (w, e) ↦ let rest = last_named-fresh n vs a.1 in let rest' = rw e at rest in rw e rest'
  ]

-- The key that a parse leaves.
abbrev pub ParseResult : Bytes → Place → Result Listing → Result (Unit {0}) × HiveKey → Type 0
ParseResult file p (ok l) a =
    (vs : Values) × (ks : SubKeys) × (a ≡ (ok tt, hive_key p true vs ks))
    × FindsValues file l vs
    × FindsKeys l ks
    × CachedAll file ks
ParseResult file p thrown a = a.0 ≡ thrown

parse_parts :
    (file : Bytes) (p : Place) (read : Result (List RawHiveValue))
    (listed : Result (List (Bytes × Place))) (a : Result (Unit {0}) × Values)
    (b : Result (Unit {0}) × SubKeys)
    → ((vs : List RawHiveValue) → read ≡ ok vs → All (λ v. v.parsed ≡ false) vs)
    → Loop (λ vs. assign_all vs []) read a
    → Loop (λ qs. emplace_all qs no_keys) listed b
    → ParseResult file p
        (read >>= λ vs. listed >>= λ qs. ok (record { values = vs; keys = qs }))
        (elim a.0 [
          | ok _ ↦ (b.0, hive_key p true a.1 b.1)
          | thrown ↦ (thrown, hive_key p true a.1 no_keys)
        ])
unfolding find_value find_key Cached
parse_parts file p thrown listed a b fresh la lb = rw la refl
parse_parts file p (ok vs) thrown a b fresh la lb = rw la lb
parse_parts file p (ok vs) (ok qs) a b fresh la lb =
    rw (la, lb)
      (
        assign_all vs [],
        emplace_all qs no_keys,
        ap
            (λ (x : Result (Unit {0}) × Values).
              (ok tt, hive_key p true x.1 (emplace_all qs no_keys)))
            la,
        λ n. rw (find_value-assign_all n vs []) (last_named-fresh file p n vs (fresh vs refl)),
        λ n. find_key-emplace_all n qs no_keys,
        CachedAll-emplace_all file qs no_keys tt,
      )

pub parse-ParseResult :
    (file : Bytes) (k : HiveKey)
    → Cached file k
    → ParseResult file (place_of k) (listing file (place_of k)) (parse file k)
unfolding parse Cached listing
parse-ParseResult file (hive_key p true vs ks) (l, e, fv, fk, c) = rw e (vs, ks, refl, fv, fk, c)
parse-ParseResult file (hive_key p false vs ks) c =
    rw (c.0, c.1)
      (parse_parts file p _ _ _ _ (collect-fresh file p (rounds_int p.value_count) 0)
        (parse_values-Loop file p (rounds_int p.value_count) 0 [])
        (parse_items-Loop file p no_keys))
