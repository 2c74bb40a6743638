-- ===== src/Serialization/Bounds.antt =====
-- src/emulator/serialization.hpp: the bounds check of `read_data`.
use emulator_momo.Common.{
  ℕ, zero, suc, ◌+◌, ◌-◌, ◌%◌, ◌≤◌, ◌<◌, ◌≡◌, refl, Bool, false, not, ◌&&◌, ◌⊎◌, inl, inr, [], ◌∷◌,
  length, take, drop, ltb, ◌==◌, add64, add64-eq, u64_mod, arith, Bool-cases, ok, thrown,
}
use emulator_momo.Serialization.Buffer.{Bytes, Deserializer, from_bytes, check_data, read_data}

length-take : (n : ℕ) (xs : Bytes) → n ≤ length xs → length (take n xs) ≡ n
unfolding take
length-take zero xs h = refl
length-take (suc n) [] h = absurd (omega arith)
length-take (suc n) (x ∷ xs) h = omega (arith, length-take n xs (omega arith))

length-drop : (n : ℕ) (xs : Bytes) → length (drop n xs) ≡ length xs - n
unfolding drop
length-drop zero xs = omega arith
length-drop (suc n) [] = omega arith
length-drop (suc n) (x ∷ xs) = omega (arith, length-drop n xs)

-- A read that succeeds gives as many bytes as were asked for, and stays inside the buffer.
pub record Inside (size : ℕ) (s : Deserializer) (r : Bytes × Deserializer) : Type 0 where
  pub amount : length r.0 ≡ size
  pub start : r.0 ≡ take size (drop s.offset s.buffer)
  pub after : s.offset + size ≤ r.1.offset
  pub within : r.1.offset ≤ length s.buffer
  pub same : r.1.buffer ≡ s.buffer

module _ (debug : Bool) (size : ℕ) (s : Deserializer) (far : s.offset + size + 8 < u64_mod) where
  abbrev result : Bytes
  result = take size (drop s.offset s.buffer)

  check_data_cases :
      s.offset + size ≤ length s.buffer
      → let s' = record s { offset = s.offset + size } in
        (check_data debug s.offset result s' ≡ thrown)
        ⊎ ((r : Bytes × Deserializer) × (check_data debug s.offset result s' ≡ ok r)
            × Inside size s r)
  unfolding check_data
  check_data_cases room =
      let end = s.offset + size in
      let next = add64-eq end 8 far in
      let n =
        length-take size (drop s.offset s.buffer) (omega (arith, length-drop s.offset s.buffer)) in
      let mark = from_bytes (take 8 (drop end s.buffer)) == s.offset in
      elim (Bool-cases (ltb (length s.buffer) (end + 8))) [
        | inl short ↦ inl (rw (next, short) refl)
        | inr enough ↦ elim (Bool-cases mark) [
          | inl good ↦ inr (
            (result, record s { offset = end + 8 }),
            rw (next, enough, good) refl,
            record {
              amount = n;
              start = refl;
              after = omega arith;
              within = ground (arith, enough);
              same = refl;
            },
          )
          | inr bad ↦ inl (rw (next, enough, bad) refl)
        ]
      ]

  -- Where no sum wraps, a read throws, or gives the bytes from the offset on, as many as were asked
  -- for, and ends inside the buffer; it throws where fewer bytes are left.
  pub read_data_cases :
      ((read_data debug size s ≡ thrown)
        ⊎ ((r : Bytes × Deserializer) × (read_data debug size s ≡ ok r) × Inside size s r))
      × (length s.buffer < s.offset + size → read_data debug size s ≡ thrown)
  unfolding read_data
  read_data_cases =
      let end = add64-eq s.offset size (omega (arith, far)) in
      let n = length-take size (drop s.offset s.buffer) in
      let m = length-drop s.offset s.buffer in
      elim (Bool-cases (ltb (length s.buffer) (s.offset + size))) [
        | inl short ↦ (inl (rw (end, short) refl), λ _. rw (end, short) refl)
        | inr enough ↦ (
          elim (Bool-cases (debug && not s.no_debugging)) [
            | inl check ↦ rw (end, enough, check) (check_data_cases (ground (arith, enough)))
            | inr plain ↦ inr (
              (result, record s { offset = s.offset + size }),
              rw (end, enough, plain) refl,
              record {
                amount = n (ground (arith, m, enough));
                start = refl;
                after = omega arith;
                within = ground (arith, enough);
                same = refl;
              },
            )
          ],
          λ short. absurd (ground (arith, enough)),
        )
      ]

-- Where the sum of the offset and the size wraps around, the check lets the read pass, in a release
-- build, and the offset after it is lower than before.
pub read_data_wraps :
    (size : ℕ) (s : Deserializer)
    → s.offset ≤ length s.buffer
    → length s.buffer < u64_mod
    → size < u64_mod
    → u64_mod ≤ s.offset + size
    → (r : Bytes × Deserializer) × (read_data false size s ≡ ok r) × (r.1.offset < s.offset)
unfolding read_data add64
read_data_wraps size s a b c d =
    let e : (s.offset + size) % u64_mod ≡ s.offset + size - u64_mod = omega arith in
    (
      (take size (drop s.offset s.buffer), record s { offset = s.offset + size - u64_mod }),
      rw e (ground arith),
      omega arith,
    )
