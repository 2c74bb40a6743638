-- ===== src/Serialization/Sequences.antt =====
-- src/emulator/serialization.hpp: optional values, vectors and strings come back.
use emulator_momo.Common.{
  ℕ, ◌<◌, ◌≡◌, refl, Bool, true, false, Option, none, some, List, [], ◌∷◌, length, All, u64_mod, ok,
  arith,
}
use emulator_momo.Serialization.Buffer.{Bytes, write_uint, write_bool}
use emulator_momo.Serialization.Codec.{
  Serializable, RoundTrips, reader, Prefix, Prefix_refl, Prefix_trans,
}
use emulator_momo.Serialization.Containers.{
  write_optional, read_optional, write_all, write_span, read_times, read_vector, write_string,
  read_string,
}
use emulator_momo.Serialization.Numbers.{byte_bound, uint-RoundTrips, bool-RoundTrips}

-- What a present value satisfies.
abbrev pub Present {κ} : {V : Type 0} → (V → Type κ) → Option V → Type κ
Present P none = Unit
Present P (some v) = P v

module _ (debug : Bool) {V : Type 0} {P : V → Type 0} {c : Serializable V}
    (law : RoundTrips c P) where
  abbrev pub optional : Serializable (Option V)
  optional = record { serialize = write_optional debug c; deserialize = read_optional debug c }

  optional-extends : (o : Option V) (b : Bytes) → Prefix b (write_optional debug c o b)
  unfolding write_optional
  optional-extends none b = (bool-RoundTrips debug).extends false b
  optional-extends (some v) b =
      Prefix_trans b (write_bool debug true b) _ ((bool-RoundTrips debug).extends true b)
        (law.extends v (write_bool debug true b))

  optional-reads :
      (o : Option V) (b whole : Bytes)
      → Present P o
      → length whole < u64_mod
      → Prefix (write_optional debug c o b) whole
      → read_optional debug c (reader whole (length b))
        ≡ ok (o, reader whole (length (write_optional debug c o b)))
  unfolding write_optional read_optional
  optional-reads none b whole p small f =
      rw ((bool-RoundTrips debug).reads false b whole tt small f) refl
  optional-reads (some v) b whole p small f =
      let b₁ = write_bool debug true b in
      let f₁ = Prefix_trans b₁ (c.serialize v b₁) whole (law.extends v b₁) f in
      rw ((bool-RoundTrips debug).reads true b whole tt small f₁, law.reads v b₁ whole p small f)
        refl

  pub optional-RoundTrips : RoundTrips optional (Present P)
  optional-RoundTrips = record { extends = optional-extends; reads = optional-reads }

  all-extends : (vs : List V) (b : Bytes) → Prefix b (write_all debug c vs b)
  unfolding write_all
  all-extends [] b = Prefix_refl b
  all-extends (v ∷ vs) b =
      Prefix_trans b (c.serialize v b) _ (law.extends v b) (all-extends vs (c.serialize v b))

  times-reads :
      (vs : List V) (b whole : Bytes)
      → All P vs
      → length whole < u64_mod
      → Prefix (write_all debug c vs b) whole
      → read_times debug c (length vs) (reader whole (length b))
        ≡ ok (vs, reader whole (length (write_all debug c vs b)))
  unfolding write_all read_times
  times-reads [] b whole p small f = refl
  times-reads (v ∷ vs) b whole p small f =
      let b₁ = c.serialize v b in
      let f₁ = Prefix_trans b₁ (write_all debug c vs b₁) whole (all-extends vs b₁) f in
      rw (law.reads v b whole p.0 small f₁, times-reads vs b₁ whole p.1 small f) refl

  abbrev pub vector : Serializable (List V)
  vector = record { serialize = write_span debug c; deserialize = read_vector debug c }

  abbrev pub Counted : List V → Type 0
  Counted vs = All P vs × (length vs < u64_mod)

  vector-extends : (vs : List V) (b : Bytes) → Prefix b (write_span debug c vs b)
  unfolding write_span
  vector-extends vs b =
      let b₁ = write_uint debug 8 (length vs) b in
      Prefix_trans b b₁ _ ((uint-RoundTrips debug 8).extends (length vs) b) (all-extends vs b₁)

  vector-reads :
      (vs : List V) (b whole : Bytes)
      → Counted vs
      → length whole < u64_mod
      → Prefix (write_span debug c vs b) whole
      → read_vector debug c (reader whole (length b))
        ≡ ok (vs, reader whole (length (write_span debug c vs b)))
  unfolding write_span read_vector
  vector-reads vs b whole p small f =
      let b₁ = write_uint debug 8 (length vs) b in
      let f₁ = Prefix_trans b₁ (write_all debug c vs b₁) whole (all-extends vs b₁) f in
      rw ((uint-RoundTrips debug 8).reads (length vs) b whole (omega (arith, p.1)) small f₁)
        (times-reads vs b₁ whole p.0 small f)

  pub vector-RoundTrips : RoundTrips vector Counted
  vector-RoundTrips = record { extends = vector-extends; reads = vector-reads }

module _ (debug : Bool) (width : ℕ) where
  abbrev pub string : Serializable (List ℕ)
  string = record { serialize = write_string debug width; deserialize = read_string debug width }

  -- The characters fit the width, and their number fits the count.
  abbrev pub Text : List ℕ → Type 0
  Text s = All (λ v. v < byte_bound width) s × (length s < u64_mod)

  pub string-RoundTrips : RoundTrips string Text
  unfolding write_string read_string read_vector
  string-RoundTrips =
      let law = vector-RoundTrips debug (uint-RoundTrips debug width) in
      record { extends = law.extends; reads = law.reads }
