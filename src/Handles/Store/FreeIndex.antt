-- ===== src/Handles/Store/FreeIndex.antt =====
-- src/windows-emulator/handles.hpp: the search for a free index.
use emulator_momo.Common.{
  ℕ, zero, suc, ◌+◌, ◌%◌, ◌≤◌, ◌<◌, ◌≡◌, false, arith, none, some, [], ◌∷◌, Dict, lookup, length,
  ◌==◌, leb, if◌then◌else◌, u32_mod, inl, inr, Option-cases, ◌≢◌,
}
use native.Mathlib.Decide.{dec_lt}
use emulator_momo.Handles.Store.{free_index_loop, find_free_index}

module _ {V : Type 0} where
  -- The number of keys from `i` on.
  pub keys_from : ℕ → Dict V → ℕ
  keys_from i [] = 0
  keys_from i ((j, v) ∷ m) = (if leb i j then 1 else 0) + keys_from i m

  keys_from-le : (i : ℕ) (m : Dict V) → keys_from i m ≤ length m
  unfolding keys_from
  keys_from-le i [] = omega arith
  keys_from-le i ((j, v) ∷ m) = ground (arith, keys_from-le i m)

  keys_from_mono : (i : ℕ) (m : Dict V) → keys_from (i + 1) m ≤ keys_from i m
  unfolding keys_from
  keys_from_mono i [] = omega arith
  keys_from_mono i ((j, v) ∷ m) = ground (arith, keys_from_mono i m)

  -- A key that is there counts.
  keys_from-step :
      (i : ℕ) (v : V) (m : Dict V) → lookup i m ≡ some v → keys_from (i + 1) m < keys_from i m
  unfolding keys_from lookup
  keys_from-step i v [] h = cc
  keys_from-step i v ((j, w) ∷ m) h = ground (arith, keys_from-step i v m, keys_from_mono i m)

  -- A free index at `i` or above that has no free index before it.
  abbrev pub IsFirstFree : ℕ → Dict V → ℕ → Type 0
  IsFirstFree i m r =
      (lookup r m ≡ none)
      × (i ≤ r)
      × (r ≤ i + keys_from i m)
      × ((j : ℕ) → i ≤ j → j < r → lookup j m ≢ none)

  IsFirstFree-later :
      (i r : ℕ) (v : V) (m : Dict V)
      → lookup i m ≡ some v
      → IsFirstFree (i + 1) m r
      → IsFirstFree i m r
  IsFirstFree-later i r v m e f =
      let step = keys_from-step i v m e in
      (
        f.0,
        omega arith,
        omega arith,
        λ j p q. elim (dec_lt i j) [
          | yes a ↦ f.3 j (omega arith) q
          | no a ↦
              let same : i ≡ j = omega arith in
              let there : lookup j m ≡ some v = rw same at e in λ n. cc
        ],
      )

  free_index_loop-free :
      (fuel i : ℕ) (m : Dict V)
      → 0 < i
      → keys_from i m < fuel
      → i + keys_from i m < u32_mod
      → IsFirstFree i m (free_index_loop fuel i m)
  unfolding free_index_loop
  free_index_loop-free zero i m h n w = absurd (omega arith)
  free_index_loop-free (suc fuel) i m h n w =
      let nz : (i == 0) ≡ false = ground arith in
      elim (Option-cases (lookup i m)) [
        | inl e ↦
            let stop : free_index_loop (suc fuel) i m ≡ i = rw (nz, e, free_index_loop) in
            rw stop (e, omega arith, omega arith, λ j p q. absurd (omega arith))
        | inr (v, e) ↦
            let step = keys_from-step i v m e in
            let wrap : (i + 1) % u32_mod ≡ i + 1 = omega arith in
            let go : free_index_loop (suc fuel) i m ≡ free_index_loop fuel (i + 1) m =
              rw (nz, e, free_index_loop, wrap) in
            rw go (
              IsFirstFree-later i (free_index_loop fuel (i + 1) m) v m e
                (free_index_loop-free fuel (i + 1) m (omega arith) (omega arith) (omega arith)))
      ]

  -- In a map with fewer than 2 ^ 32 - 1 entries the search ends, at the least free index from 1 on,
  -- which is not above one and the number of keys from 1 on.
  pub find_free_index-IsFirstFree :
      (m : Dict V) → length m + 1 < u32_mod → IsFirstFree 1 m (find_free_index m)
  unfolding find_free_index
  find_free_index-IsFirstFree m h =
      let k = keys_from-le 1 m in
      free_index_loop-free (length m + 1) 1 m (omega arith) (omega arith) (omega arith)

  pub keys_from_bound : (m : Dict V) → keys_from 1 m ≤ length m
  keys_from_bound m = keys_from-le 1 m
