-- ===== src/Fuzzing/Mutation.antt =====
-- src/fuzzing-engine/input_generator.cpp: the length of a mutated input, and its bytes.
use emulator_momo.Common.{
  ℕ, zero, suc, ◌+◌, ◌-◌, ◌%◌, ◌<◌, ◌≡◌, refl, ◌||◌, List, [], ◌∷◌, ◌++◌, length, length-append,
  take, All, arith, ◌==◌, Bool-cases, inl, inr,
}
use emulator_momo.Fuzzing.{MutationDraws, set_at, zeros, resize_input, change_bytes, mutate_input}

abbrev pub AreBytes : List ℕ → Type 0
AreBytes = All (λ v. v < 256)

-- An input that is not empty, of bytes.
abbrev Good : List ℕ → Type 0
Good input = (0 < length input) × AreBytes input

set_at-Good : (i v : ℕ) (input : List ℕ) → v < 256 → Good input → Good (set_at i v input)
unfolding set_at
set_at-Good i v [] h g = g
set_at-Good zero v (c ∷ cs) h g = (omega arith, (h, g.1.1))
set_at-Good (suc i) v (c ∷ cs) h g = (omega arith, (g.1.0, bytes i v cs h g.1.1))
  where
    bytes : (i v : ℕ) (cs : List ℕ) → v < 256 → AreBytes cs → AreBytes (set_at i v cs)
    bytes i v [] h a = a
    bytes zero v (c ∷ cs) h a = (h, a.1)
    bytes (suc i) v (c ∷ cs) h a = (a.0, bytes i v cs h a.1)

zeros-AreBytes : (n : ℕ) → AreBytes (zeros n)
unfolding zeros
zeros-AreBytes zero = tt
zeros-AreBytes (suc n) = (omega arith, zeros-AreBytes n)

length-zeros : (n : ℕ) → length (zeros n) ≡ n
unfolding zeros
length-zeros zero = refl
length-zeros (suc n) = omega (arith, length-zeros n)

append-AreBytes : (xs ys : List ℕ) → AreBytes xs → AreBytes ys → AreBytes (xs ++ ys)
append-AreBytes [] ys a b = b
append-AreBytes (x ∷ xs) ys a b = (a.0, append-AreBytes xs ys a.1 b)

take-Good : (n : ℕ) (xs : List ℕ) → 0 < n → Good xs → Good (take n xs)
unfolding take
take-Good zero xs h g = absurd (omega (arith, h))
take-Good (suc n) [] h g = g
take-Good (suc n) (x ∷ xs) h g = (omega arith, (g.1.0, bytes n xs g.1.1))
  where
    bytes : (n : ℕ) (xs : List ℕ) → AreBytes xs → AreBytes (take n xs)
    bytes zero xs a = tt
    bytes (suc n) [] a = tt
    bytes (suc n) (x ∷ xs) a = (a.0, bytes n xs a.1)

resize_input-Good :
    (d : MutationDraws) (input : List ℕ) → AreBytes input → Good (resize_input d input)
unfolding resize_input zeros
resize_input-Good d input a = elim (Bool-cases (length input == 0 || d.grows == 0)) [
  | inl grows ↦
      let n = length-append input (zeros (d.new_bytes + 1)) in
      let z = length-zeros (d.new_bytes + 1) in
      rw (grows, resize_input)
        (
          omega (arith, n, z),
          append-AreBytes input (zeros (d.new_bytes + 1)) a (zeros-AreBytes (d.new_bytes + 1)),
        )
  | inr other ↦ elim (Bool-cases (d.shrinks == 0)) [
    | inl shrinks ↦
        let some_bytes : 0 < length input = ground (arith, other) in
        rw (other, shrinks, resize_input)
          (take-Good (length input - d.remove_bytes % length input) input
            (omega (arith, some_bytes)) (some_bytes, a))
    | inr same ↦ rw (other, same, resize_input) (ground (arith, other), a)
  ]
]

change_bytes-Good :
    (n i : ℕ) (d : MutationDraws) (input : List ℕ) → Good input → Good (change_bytes n i d input)
unfolding change_bytes
change_bytes-Good zero i d input g = g
change_bytes-Good (suc n) i d input g =
    change_bytes-Good n (suc i) d _
      (set_at-Good ((d.change i).0 % length input) ((d.change i).1 % 256) input (omega arith) g)

-- Whatever the random numbers are, a mutated input of bytes consists of bytes and is not empty; nor is it empty after it was
-- resized, so that the remainders by its length, which choose the number of mutations and their places, are defined.
pub mutate_input-AreBytes :
    (d : MutationDraws) (input : List ℕ)
    → AreBytes input
    → (0 < length (resize_input d input))
      × (0 < length (mutate_input d input))
      × AreBytes (mutate_input d input)
unfolding mutate_input
mutate_input-AreBytes d input a =
    let r = resize_input-Good d input a in
    let m = change_bytes-Good ((d.mutations + 1) % length (resize_input d input)) 0 d _ r in
    (r.0, m.0, m.1)
