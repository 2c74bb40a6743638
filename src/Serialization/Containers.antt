-- ===== src/Serialization/Containers.antt =====
-- src/emulator/serialization.hpp: optional values, vectors, strings and maps.
use emulator_momo.Common.{
  ℕ, zero, suc, Bool, true, false, Option, none, some, List, [], ◌∷◌, length, Dict, emplace,
  if◌then◌else◌, Result, ok, ◌>>=◌,
}
use emulator_momo.Serialization.Buffer.{
  Bytes, Deserializer, write_uint, read_uint, write_bool, read_bool,
}
use emulator_momo.Serialization.Codec.{Serializable}

module _ (debug : Bool) {V : Type 0} (c : Serializable V) where
  unfoldable pub write_optional : Option V → Bytes → Bytes
  write_optional none b = write_bool debug false b
  write_optional (some v) b = c.serialize v (write_bool debug true b)

  unfoldable pub read_some : Deserializer → Result (Option V × Deserializer)
  read_some s = c.deserialize s >>= λ r. ok (some r.0, r.1)

  unfoldable pub read_optional : Deserializer → Result (Option V × Deserializer)
  unfolding read_some
  read_optional s = read_bool debug s >>= λ r. if r.0 then read_some r.1 else ok (none, r.1)

  unfoldable pub write_all : List V → Bytes → Bytes
  write_all [] b = b
  write_all (v ∷ vs) b = write_all vs (c.serialize v b)

  unfoldable pub write_span : List V → Bytes → Bytes
  unfolding write_all
  write_span vs b = write_all vs (write_uint debug 8 (length vs) b)

  abbrev pub write_vector : List V → Bytes → Bytes
  write_vector = write_span

  -- The loop of `read_vector` and of `read_string`, by the rounds left.
  unfoldable pub read_times : ℕ → Deserializer → Result (List V × Deserializer)
  read_times zero s = ok ([], s)
  read_times (suc n) s = c.deserialize s >>= λ r. read_times n r.1 >>= λ q. ok (r.0 ∷ q.0, q.1)

  unfoldable pub read_vector : Deserializer → Result (List V × Deserializer)
  unfolding read_times
  read_vector s = read_uint debug 8 s >>= λ r. read_times r.0 r.1

-- A string is written and read like a vector of its characters, which have `width` bytes.
module _ (debug : Bool) (width : ℕ) where
  abbrev character : Serializable ℕ
  character = record { serialize = write_uint debug width; deserialize = read_uint debug width }

  unfoldable pub write_string : List ℕ → Bytes → Bytes
  write_string = write_span debug character

  unfoldable pub read_string : Deserializer → Result (List ℕ × Deserializer)
  read_string s = read_uint debug 8 s >>= λ r. read_times debug character r.0 r.1

-- Keys of `width` bytes.
module _ (debug : Bool) (width : ℕ) {V : Type 0} (c : Serializable V) where
  unfoldable pub write_entries : Dict V → Bytes → Bytes
  write_entries [] b = b
  write_entries ((k, v) ∷ m) b = write_entries m (c.serialize v (write_uint debug width k b))

  unfoldable pub write_map : Dict V → Bytes → Bytes
  unfolding write_entries
  write_map m b = write_entries m (write_uint debug 8 (length m) b)

  -- The loop of `read_map`, by the rounds left.
  unfoldable pub read_entries : ℕ → Dict V → Deserializer → Result (Dict V × Deserializer)
  read_entries zero m s = ok (m, s)
  read_entries (suc n) m s = read_uint debug width s >>= λ k.
      c.deserialize k.1 >>= λ v. read_entries n (emplace k.0 v.0 m) v.1

  unfoldable pub read_map : Deserializer → Result (Dict V × Deserializer)
  unfolding read_entries
  read_map s = read_uint debug 8 s >>= λ r. read_entries r.0 [] r.1
