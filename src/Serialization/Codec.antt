-- ===== src/Serialization/Codec.antt =====
-- src/emulator/serialization.hpp: the concept `Serializable`, and what it promises.
use emulator_momo.Common.{
  ℕ, ◌<◌, ◌≡◌, refl, sym, ◌∙◌, ap, false, [], ◌++◌, length, u64_mod, Result, ok, ◌>>=◌,
}
use mathlib.Core.List.{append_assoc, append-nil}
use emulator_momo.Serialization.Buffer.{Bytes, Deserializer}

-- A type whose objects can be written to and read from a buffer.
pub record Serializable (V : Type 0) : Type 0 where
  pub serialize : V → Bytes → Bytes
  pub deserialize : Deserializer → Result (V × Deserializer)

-- A deserializer that stands at an offset of a buffer.
abbrev pub reader : Bytes → ℕ → Deserializer
reader whole offset = record { no_debugging = false; offset = offset; buffer = whole }

-- `whole` starts with `front`.
abbrev pub Prefix : Bytes → Bytes → Type 0
Prefix front whole = (rest : Bytes) × (whole ≡ front ++ rest)

pub Prefix_refl : (b : Bytes) → Prefix b b
Prefix_refl b = ([], sym (append-nil b))

pub Prefix_trans : (a b c : Bytes) → Prefix a b → Prefix b c → Prefix a c
Prefix_trans a b c (r, e) (s, f) = (r ++ s, f ∙ ap (λ (x : Bytes). x ++ s) e ∙ append_assoc a r s)

-- Objects that satisfy `P` come back: wherever an object was written in a buffer of less than 2 ^ 64
-- bytes, reading from its start gives it, and stops where it ends.
pub record RoundTrips {V : Type 0} (c : Serializable V) (P : V → Type 0) : Type 0 where
  pub extends : (v : V) (b : Bytes) → Prefix b (c.serialize v b)
  pub reads :
      (v : V) (b whole : Bytes)
      → P v
      → length whole < u64_mod
      → Prefix (c.serialize v b) whole
      → c.deserialize (reader whole (length b)) ≡ ok (v, reader whole (length (c.serialize v b)))

-- One object after another: what stands before an object that was written stands in the buffer too.
pub before :
    {V : Type 0} {c : Serializable V} {P : V → Type 0}
    → RoundTrips c P
    → (v : V) (b w : Bytes) → Prefix (c.serialize v b) w
    → Prefix b w
before {c = c} law v b w p = Prefix_trans b (c.serialize v b) w (law.extends v b) p

-- Reading by `m`, from the place where `b` ends, has the result `r`.
pub record Step {X : Type 0} (whole b : Bytes) (m : Deserializer → Result X) (r : Result X)
    : Type 0 where
  pub starts : Prefix b whole
  pub gives : m (reader whole (length b)) ≡ r

pub step :
    {V X : Type 0} {c : Serializable V} {P : V → Type 0} {b whole : Bytes} {r : Result X}
    → RoundTrips c P
    → length whole < u64_mod
    → (v : V) → P v
    → (f : V × Deserializer → Result X) → Step whole (c.serialize v b) (λ s. f (v, s)) r
    → Step whole b (λ s. c.deserialize s >>= f) r
step {c = c} {b = b} {whole = whole} law small v p f next =
    let starts = before law v b whole next.starts in
    record { starts = starts; gives = rw (law.reads v b whole p small next.starts) next.gives }

pub stop :
    {X : Type 0} {b whole : Bytes} (x : X)
    → Prefix b whole
    → Step {X = X × Deserializer} whole b (λ s. ok (x, s)) (ok (x, reader whole (length b)))
stop x p = record { starts = p; gives = refl }
