-- ===== src/Serialization/Maps.antt =====
-- src/emulator/serialization.hpp: maps come back.
use emulator_momo.Common.{
  ℕ, ◌+◌, ◌<◌, ◌≡◌, refl, ◌∙◌, ap, Bool, [], ◌∷◌, ◌++◌, length, All, u64_mod, ok, arith, Dict,
  emplace-last, IsSorted, Below, Below-mono, Below-append,
}
use mathlib.Core.List.{append_assoc, append-nil}
use emulator_momo.Serialization.Buffer.{Bytes, write_uint}
use emulator_momo.Serialization.Codec.{
  Serializable, RoundTrips, reader, Prefix, Prefix_refl, Prefix_trans,
}
use emulator_momo.Serialization.Containers.{write_entries, write_map, read_entries, read_map}
use emulator_momo.Serialization.Numbers.{byte_bound, uint-RoundTrips}

module _ (debug : Bool) (width : ℕ) {V : Type 0} {P : V → Type 0} {c : Serializable V}
    (law : RoundTrips c P) where
  abbrev pub dict : Serializable (Dict V)
  dict = record { serialize = write_map debug width c; deserialize = read_map debug width c }

  abbrev entry_after : ℕ → V → Bytes → Bytes
  entry_after k v b = c.serialize v (write_uint debug width k b)

  entry-extends : (k : ℕ) (v : V) (b : Bytes) → Prefix b (entry_after k v b)
  entry-extends k v b =
      Prefix_trans b (write_uint debug width k b) _ ((uint-RoundTrips debug width).extends k b)
        (law.extends v (write_uint debug width k b))

  entries-extends : (m : Dict V) (b : Bytes) → Prefix b (write_entries debug width c m b)
  unfolding write_entries
  entries-extends [] b = Prefix_refl b
  entries-extends ((k, v) ∷ m) b =
      Prefix_trans b (entry_after k v b) _ (entry-extends k v b)
        (entries-extends m (entry_after k v b))

  -- Keys and values that fit.
  abbrev pub Fits : Dict V → Type 0
  Fits = All (λ e. (e.0 < byte_bound width) × P e.1)

  entries-reads :
      (m acc : Dict V) (lo : ℕ) (b whole : Bytes)
      → Fits m
      → Below lo acc
      → IsSorted lo m
      → length whole < u64_mod
      → Prefix (write_entries debug width c m b) whole
      → read_entries debug width c (length m) acc (reader whole (length b))
        ≡ ok (acc ++ m, reader whole (length (write_entries debug width c m b)))
  unfolding write_entries read_entries
  entries-reads [] acc lo b whole p below s small f = rw (append-nil acc) refl
  entries-reads ((k, v) ∷ m) acc lo b whole p below s small f =
      let b₁ = write_uint debug width k b in
      let b₂ = c.serialize v b₁ in
      let f₂ = Prefix_trans b₂ (write_entries debug width c m b₂) whole (entries-extends m b₂) f in
      let f₁ = Prefix_trans b₁ b₂ whole (law.extends v b₁) f₂ in
      let r = (uint-RoundTrips debug width).reads k b whole p.0.0 small f₁ in
      let q = law.reads v b₁ whole p.0.1 small f₂ in
      let ahead = Below-mono lo k acc s.0 below in
      let acc' = acc ++ (k, v) ∷ [] in
      let below' : Below (k + 1) acc' =
        Below-append (k + 1) acc ((k, v) ∷ []) (Below-mono k (k + 1) acc (omega arith) ahead)
          (omega arith, tt) in
      let rest = entries-reads m acc' (k + 1) b₂ whole p.1 below' s.1 small f in
      rw (r, q, emplace-last k v acc ahead)
        (rest
          ∙ ap (λ n. ok (n, reader whole (length (write_entries debug width c m b₂))))
              (append_assoc acc ((k, v) ∷ []) m))

  -- What the entries of a map that comes back satisfy.
  abbrev pub Ordered : Dict V → Type 0
  Ordered m = Fits m × IsSorted 0 m × (length m < u64_mod)

  map-extends : (m : Dict V) (b : Bytes) → Prefix b (write_map debug width c m b)
  unfolding write_map
  map-extends m b =
      let b₁ = write_uint debug 8 (length m) b in
      Prefix_trans b b₁ _ ((uint-RoundTrips debug 8).extends (length m) b) (entries-extends m b₁)

  -- For values that come back when they are written and read: a map whose keys fit their width,
  -- whose values fit, and whose entries are in the order of the keys, comes back from where it was
  -- written, in any buffer of less than 2 ^ 64 bytes, and reading it stops where it ends.
  pub read_map-write_map :
      (m : Dict V) (b whole : Bytes)
      → Ordered m
      → length whole < u64_mod
      → Prefix (write_map debug width c m b) whole
      → read_map debug width c (reader whole (length b))
        ≡ ok (m, reader whole (length (write_map debug width c m b)))
  unfolding write_map read_map
  read_map-write_map m b whole p small f =
      let b₁ = write_uint debug 8 (length m) b in
      let f₁ = Prefix_trans b₁ (write_entries debug width c m b₁) whole (entries-extends m b₁) f in
      rw ((uint-RoundTrips debug 8).reads (length m) b whole (omega (arith, p.2)) small f₁)
        (entries-reads m [] 0 b₁ whole p.0 tt p.1 small f)

  -- A map whose keys and values fit, in the order of its keys, comes back.
  pub map-RoundTrips : RoundTrips dict Ordered
  map-RoundTrips = record { extends = map-extends; reads = read_map-write_map }
