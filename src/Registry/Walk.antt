-- ===== src/Registry/Walk.antt =====
-- src/windows-emulator/registry/hive_parser.hpp: the walk along a path from the root of a hive, and
-- sequences of questions to a hive.
use emulator_momo.Common.{
  ◌≡◌, refl, sym, ap, ◌∙◌, subst, inl, inr, Bool, true, false, not, none, some, List, [], ◌∷◌,
  if◌then◌else◌, Bool-cases, Option-cases, Result, ok, thrown, ◌>>=◌, bind_ok, ok_injective,
  same_name,
}
use emulator_momo.Serialization.Buffer.{Bytes}
use emulator_momo.Registry.File.{main_key_block_offset, read_file_data}
use emulator_momo.Registry.Blocks.{KeyBlock, read_key_block}
use emulator_momo.Registry.Hive.{
  Values, Place, HiveKey, hive_key, SubKeys, no_keys, sub_key, place_of, new_key, find_key, set_key,
  sub_keys_of, with_sub_keys, get_value, visit, value_at, has_sub_key, parse_root_block,
}
use emulator_momo.Registry.Listing.{
  first_named, Listing, listing, value_of, follow, listed_value, listed_sub_key,
}
use emulator_momo.Registry.Cached.{place_at, FindsValues, FindsKeys, Cached, CachedAll}
use emulator_momo.Registry.Refines.{Agrees, cached, after_parse, get_value-Agrees}

module _ (file : Bytes) (part : Bytes) (child : HiveKey) where
  CachedAll-find_key :
      (ks : SubKeys) → CachedAll file ks → find_key part ks ≡ some child → Cached file child
  unfolding find_key Cached
  CachedAll-find_key no_keys c e = cc
  CachedAll-find_key (sub_key n k ks) c e = elim (Bool-cases (same_name n part)) [
    | inl f ↦
        let e' : some k ≡ some child = rw f at e in
        let g : k ≡ child = cc e' in subst (Cached file) g c.0
    | inr f ↦ let e' = rw f at e in CachedAll-find_key ks c.1 e'
  ]

  CachedAll-set_key :
      (ks : SubKeys)
      → CachedAll file ks
      → Cached file child
      → CachedAll file (set_key part child ks)
  unfolding set_key Cached
  CachedAll-set_key no_keys c d = tt
  CachedAll-set_key (sub_key n k ks) c d = elim (Bool-cases (same_name n part)) [
    | inl f ↦ rw f (d, c.1)
    | inr f ↦ rw f (c.0, CachedAll-set_key ks c.1 d)
  ]

  find_key-set_key :
      (old : HiveKey) (ks : SubKeys) (n : Bytes)
      → find_key part ks ≡ some old
      → place_of child ≡ place_of old
      → place_at (find_key n (set_key part child ks)) ≡ place_at (find_key n ks)
  unfolding find_key set_key
  find_key-set_key old no_keys n e f = refl
  find_key-set_key old (sub_key m k ks) n e f = elim (Bool-cases (same_name m part)) [
    | inl g ↦
        let e' : some k ≡ some old = rw g at e in
        let old_eq : old ≡ k = cc e' in
        let same : place_of child ≡ place_of k = f ∙ ap place_of old_eq in
        rw g (elim (Bool-cases (same_name m n)) [ inl h ↦ rw h (ap some same) | inr h ↦ rw h refl ])
    | inr g ↦
        let e' = rw g at e in
        rw g (elim (Bool-cases (same_name m n)) [
          | inl h ↦ rw h refl
          | inr h ↦ rw h (find_key-set_key old ks n e' f)
        ])
  ]

module _ {A : Type 0} (file : Bytes) (ask : Place → Result A)
    (use_key : HiveKey → Result A × HiveKey) (missing : A)
    (h : (k : HiveKey)
      → Cached file k
      → Agrees file (place_of k) (ask (place_of k)) (use_key k)) where
  -- The sub key that the walk went through is put back.
  visit_child :
      (p : Place) (l : Listing) (vs : Values) (ks : SubKeys)
      → listing file p ≡ ok l
      → FindsValues file l vs
      → FindsKeys l ks
      → CachedAll file ks
      → (part : Bytes) (child : HiveKey) → find_key part ks ≡ some child
      → (r : Result A) (a : Result A × HiveKey) → Agrees file (place_of child) r a
      → Agrees file p r (a.0, hive_key p true vs (set_key part a.1 ks))
  unfolding Cached
  visit_child p l vs ks e fv fk c part child f thrown a g = g
  visit_child p l vs ks e fv fk c part child f (ok r) a g = (
    g.0,
    (
      l,
      e,
      fv,
      λ n. find_key-set_key file part a.1 child ks n f g.2 ∙ fk n,
      CachedAll-set_key file part a.1 ks c g.1,
    ),
    refl,
  )

  visit-Agrees :
      (path : List Bytes) (k : HiveKey)
      → Cached file k
      → Agrees file
          (place_of k)
          (follow file ask missing path (place_of k))
          (visit file use_key missing path k)
  unfolding visit follow
  visit-Agrees [] k c = h k c
  visit-Agrees (part ∷ path) k c =
      after_parse file k
        (λ l. elim (first_named part l.keys) [
          | none ↦ ok missing
          | some q ↦ follow file ask missing path q
        ])
        (λ j. elim (find_key part (sub_keys_of j)) [
          | none ↦ (ok missing, j)
          | some child ↦
              let (r', child') = visit file use_key missing path child in
              (r', with_sub_keys j (set_key part child' (sub_keys_of j)))
        ])
        c
        λ l vs ks e fv fk c'. elim (Option-cases (find_key part ks)) [
          | inl f ↦
              let g : first_named part l.keys ≡ none = sym (fk part) ∙ ap place_at f in
              rw (f, g) (refl, cached file (place_of k) l vs ks e fv fk c', refl)
          | inr (child, f) ↦
              let g : first_named part l.keys ≡ some (place_of child) =
                sym (fk part) ∙ ap place_at f in
              rw (f, g)
                (visit_child (place_of k) l vs ks e fv fk c' part child f _ _
                  (visit-Agrees path child (CachedAll-find_key file part child ks c' f)))
        ]

pub value_at-Agrees :
    (file : Bytes) (path : List Bytes) (name : Bytes) (k : HiveKey)
    → Cached file k
    → Agrees file
        (place_of k)
        (listed_value file path name (place_of k))
        (value_at file path name k)
unfolding value_at listed_value
value_at-Agrees file path name k c =
    visit-Agrees file (value_of file name) (get_value file name) none (get_value-Agrees file name)
      path k c

pub has_sub_key-Agrees :
    (file : Bytes) (path : List Bytes) (k : HiveKey)
    → Cached file k
    → Agrees file (place_of k) (listed_sub_key file path (place_of k)) (has_sub_key file path k)
unfolding has_sub_key listed_sub_key
has_sub_key-Agrees file path k c =
    visit-Agrees file (λ q. ok true) (λ j. (ok true, j)) false (λ j d. (refl, d, refl)) path k c

new_root : KeyBlock → HiveKey
new_root b = new_key (record {
  subkey_block_offset = b.subkeys;
  value_count = b.value_count;
  value_offsets = b.offsets;
})

root_of_signature :
    (file : Bytes) (k : HiveKey) (signature : Bytes) (good : Bool)
    → (if not good
        then thrown
        else (read_key_block file main_key_block_offset >>= λ b. ok (new_root b)))
      ≡ ok k
    → Cached file k
unfolding new_root Cached
root_of_signature file k signature true e =
    let (b, eb, e') =
      bind_ok (read_key_block file main_key_block_offset) (λ b. ok (new_root b)) k e in
    subst (Cached file) (ok_injective e') (refl, refl)
root_of_signature file k signature false e = cc

pub parse_root_block-Cached :
    (file : Bytes) (k : HiveKey) → parse_root_block file ≡ ok k → Cached file k
unfolding parse_root_block new_root
parse_root_block-Cached file k e =
    let (signature, es, e') = bind_ok (read_file_data file 0 4) _ k e in
    root_of_signature file k signature _ e'
