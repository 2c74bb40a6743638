-- ===== src/Common/Maps.antt =====
-- `std::map` with integer keys: an association list in ascending order of the keys.
use Prim.Native.Nat.{ℕ, ◌+◌, ◌≤◌, ◌<◌}
use mathlib.Core.List.{List, [], ◌∷◌, ◌++◌}
use mathlib.Core.Option.{Option, none, some}
use mathlib.Core.Path.{◌≡◌, refl, ◌∙◌}
use native.Mathlib.Omega.{arith}
use emulator_momo.Common.Lists.{All}
use emulator_momo.Common.Tests.{ltb, ◌==◌, if◌then◌else◌}

abbrev pub Dict {ℓ} : Type ℓ → Type ℓ
Dict V = List (ℕ × V)

module _ {ℓ} {V : Type ℓ} where
  -- `m.find(k)`
  unfoldable pub lookup : ℕ → Dict V → Option V
  lookup k [] = none
  lookup k ((j, v) ∷ m) = if j == k then some v else lookup k m

  -- `m[k] = v`, in the place of the key's order
  unfoldable pub put : ℕ → V → Dict V → Dict V
  put k v [] = (k, v) ∷ []
  put k v ((j, w) ∷ m) =
      if j == k then (k, v) ∷ m else if ltb k j then (k, v) ∷ (j, w) ∷ m else (j, w) ∷ put k v m

  -- `m.erase(k)`
  unfoldable pub erase : ℕ → Dict V → Dict V
  erase k [] = []
  erase k ((j, w) ∷ m) = if j == k then m else (j, w) ∷ erase k m

  -- `m.emplace(k, v)` and `m.try_emplace(k, v)` leave an entry that is there.
  unfoldable pub emplace : ℕ → V → Dict V → Dict V
  emplace k v m = elim (lookup k m) [ none ↦ put k v m | some _ ↦ m ]

  -- Keys rise strictly, from `lo` on.
  abbrev pub IsSorted : ℕ → Dict V → Type 0
  IsSorted lo [] = Unit {0}
  IsSorted lo ((k, v) ∷ m) = (lo ≤ k) × IsSorted (k + 1) m

  pub IsSorted-mono : (lo lo' : ℕ) (m : Dict V) → lo ≤ lo' → IsSorted lo' m → IsSorted lo m
  IsSorted-mono lo lo' [] h s = tt
  IsSorted-mono lo lo' ((k, v) ∷ m) h s = (omega arith, s.1)

  pub lookup-below : (k lo : ℕ) (m : Dict V) → IsSorted lo m → k < lo → lookup k m ≡ none
  unfolding lookup
  lookup-below k lo [] s h = refl
  lookup-below k lo ((j, v) ∷ m) s h = ground (arith, lookup-below k (j + 1) m s.1)

  pub lookup-put :
      (k j : ℕ) (v : V) (m : Dict V)
      → lookup j (put k v m) ≡ (if k == j then some v else lookup j m)
  unfolding lookup put
  lookup-put k j v [] = refl
  lookup-put k j v ((i, w) ∷ m) = ground (arith, lookup-put k j v m)

  pub put-IsSorted :
      (lo k : ℕ) (v : V) (m : Dict V) → lo ≤ k → IsSorted lo m → IsSorted lo (put k v m)
  unfolding put
  put-IsSorted lo k v [] h s = (h, tt)
  put-IsSorted lo k v ((j, w) ∷ m) h s =
      ground (arith, put-IsSorted (j + 1) k v m, IsSorted-mono (k + 1) (j + 1) m)

  pub lookup-erase :
      (k j lo : ℕ) (m : Dict V)
      → IsSorted lo m
      → lookup j (erase k m) ≡ (if k == j then none else lookup j m)
  unfolding lookup erase
  lookup-erase k j lo [] s = ground arith
  lookup-erase k j lo ((i, w) ∷ m) s =
      ground (arith, lookup-erase k j (i + 1) m s.1, lookup-below k (i + 1) m s.1)

  pub erase-IsSorted : (lo k : ℕ) (m : Dict V) → IsSorted lo m → IsSorted lo (erase k m)
  unfolding erase
  erase-IsSorted lo k [] s = tt
  erase-IsSorted lo k ((j, w) ∷ m) s =
      ground (arith, erase-IsSorted (j + 1) k m s.1, IsSorted-mono lo (j + 1) m)

  pub put-put : (k : ℕ) (v w : V) (m : Dict V) → put k v (put k w m) ≡ put k v m
  unfolding put
  put-put k v w [] = ground arith
  put-put k v w ((j, u) ∷ m) = ground (arith, put-put k v w m)

  pub emplace-free : (k : ℕ) (v : V) (m : Dict V) → lookup k m ≡ none → emplace k v m ≡ put k v m
  unfolding emplace
  emplace-free k v m e = rw (e, emplace)

  -- Every key is below `k`.
  abbrev pub Below : ℕ → Dict V → Type 0
  Below k = All (λ e. e.0 < k)

  pub Below-mono : (k k' : ℕ) (m : Dict V) → k ≤ k' → Below k m → Below k' m
  Below-mono k k' [] h b = tt
  Below-mono k k' (e ∷ m) h b = (omega (arith, b.0), Below-mono k k' m h b.1)

  pub Below-append : (k : ℕ) (m n : Dict V) → Below k m → Below k n → Below k (m ++ n)
  Below-append k [] n b c = c
  Below-append k (e ∷ m) n b c = (b.0, Below-append k m n b.1 c)

  pub emplace-last : (k : ℕ) (v : V) (m : Dict V) → Below k m → emplace k v m ≡ m ++ (k, v) ∷ []
  unfolding lookup put
  emplace-last k v m b = emplace-free k v m (absent m b) ∙ last m b
    where
      absent : (m : Dict V) → Below k m → lookup k m ≡ none
      absent [] b = refl
      absent ((j, w) ∷ m) b = ground (arith, absent m b.1)

      last : (m : Dict V) → Below k m → put k v m ≡ m ++ (k, v) ∷ []
      last [] b = refl
      last ((j, w) ∷ m) b = ground (arith, last m b.1)
