-- ===== src/Memory/Spans.antt =====
-- Maps from a start address to a value with a length: what it means that the spans are disjoint,
-- and the lookup and update laws that the two region maps of the memory manager share.
use emulator_momo.Common.{
  ℕ, ◌+◌, ◌≤◌, ◌<◌, ◌≡◌, refl, ◌&&◌, Option, none, some, [], ◌∷◌, ◌++◌, arith, Dict, lookup, put,
  ltb, leb, if◌then◌else◌,
}

module _ {V : Type 0} (len : V → ℕ) where
  -- The spans lie in [lo, hi), are not empty, and follow one another without overlap.
  abbrev pub Spans : ℕ → ℕ → Dict V → Type 0
  Spans lo hi [] = lo ≤ hi
  Spans lo hi ((a, v) ∷ m) = (lo ≤ a) × (0 < len v) × Spans (a + len v) hi m

  -- The entry that `--m.upper_bound(x)` reaches, if there is one.
  unfoldable pub last_le : ℕ → Dict V → Option (ℕ × V)
  last_le x [] = none
  last_le x ((a, v) ∷ m) =
      if ltb x a then none else elim (last_le x m) [ none ↦ some (a, v) | some e ↦ some e ]

  pub Spans-le : (lo hi : ℕ) (m : Dict V) → Spans lo hi m → lo ≤ hi
  Spans-le lo hi [] s = s
  Spans-le lo hi ((a, v) ∷ m) s = omega (arith, Spans-le (a + len v) hi m s.2)

  pub Spans-mono : (lo lo' hi : ℕ) (m : Dict V) → lo ≤ lo' → Spans lo' hi m → Spans lo hi m
  Spans-mono lo lo' hi [] h s = omega arith
  Spans-mono lo lo' hi ((a, v) ∷ m) h s = (omega arith, s.1, s.2)

  pub put-front :
      (k lo hi : ℕ) (v : V) (m : Dict V) → Spans lo hi m → k < lo → put k v m ≡ (k, v) ∷ m
  unfolding put
  put-front k lo hi v [] s h = refl
  put-front k lo hi v ((a, w) ∷ m) s h = ground arith

  -- The first span that contains an address.
  unfoldable pub containing : ℕ → Dict V → Option (ℕ × V)
  containing x [] = none
  containing x ((a, v) ∷ m) = if leb a x && ltb x (a + len v) then some (a, v) else containing x m

  pub containing-below : (x lo hi : ℕ) (m : Dict V) → Spans lo hi m → x < lo → containing x m ≡ none
  unfolding containing
  containing-below x lo hi [] s h = refl
  containing-below x lo hi ((a, v) ∷ m) s h =
      ground (arith, containing-below x (a + len v) hi m s.2)

  pub last_le-below : (x lo hi : ℕ) (m : Dict V) → Spans lo hi m → x < lo → last_le x m ≡ none
  unfolding last_le
  last_le-below x lo hi [] s h = refl
  last_le-below x lo hi ((a, v) ∷ m) s h = ground arith

  -- The last entry that starts at or below an address is the only one that can contain it.
  pub containing-last_le :
      (x lo hi : ℕ) (m : Dict V)
      → Spans lo hi m
      → containing x m ≡ elim (last_le x m) [
        | none ↦ none
        | some e ↦ if ltb x (e.0 + len e.1) then some e else none
      ]
  unfolding containing last_le
  containing-last_le x lo hi [] s = refl
  containing-last_le x lo hi ((a, v) ∷ m) s = ground (
    arith,
    containing-last_le x (a + len v) hi m s.2,
    containing-below x (a + len v) hi m s.2,
    last_le-below x (a + len v) hi m s.2,
  )

  pub last_le-bounds :
      (x lo hi : ℕ) (m : Dict V) (a : ℕ) (v : V)
      → Spans lo hi m
      → last_le x m ≡ some (a, v)
      → (a ≤ x) × (lo ≤ a) × (a + len v ≤ hi) × (lookup a m ≡ some v)
  unfolding last_le lookup
  last_le-bounds x lo hi [] a v s h = cc
  last_le-bounds x lo hi ((b, w) ∷ m) a v s h =
      ground (arith, last_le-bounds x (b + len w) hi m a v s.2, Spans-le (b + len w) hi m s.2)

  pub containing-bounds :
      (x lo hi : ℕ) (m : Dict V) (a : ℕ) (v : V)
      → Spans lo hi m
      → containing x m ≡ some (a, v)
      → (a ≤ x) × (x < a + len v) × (lo ≤ a) × (a + len v ≤ hi)
  unfolding containing
  containing-bounds x lo hi [] a v s h = cc
  containing-bounds x lo hi ((b, w) ∷ m) a v s h =
      ground (arith, containing-bounds x (b + len w) hi m a v s.2, Spans-le (b + len w) hi m s.2)

  pub lookup-lower :
      (lo hi a : ℕ) (v : V) (m : Dict V) → Spans lo hi m → lookup a m ≡ some v → lo ≤ a
  unfolding lookup
  lookup-lower lo hi a v [] s h = cc
  lookup-lower lo hi a v ((b, w) ∷ m) s h = ground (arith, lookup-lower (b + len w) hi a v m s.2)

  pub lookup-nonempty :
      (lo hi a : ℕ) (v : V) (m : Dict V) → Spans lo hi m → lookup a m ≡ some v → 0 < len v
  unfolding lookup
  lookup-nonempty lo hi a v [] s h = cc
  lookup-nonempty lo hi a v ((b, w) ∷ m) s h =
      ground (arith, lookup-nonempty (b + len w) hi a v m s.2)

  pub put-Spans :
      (lo hi a : ℕ) (v v' : V) (m : Dict V)
      → Spans lo hi m
      → lookup a m ≡ some v
      → len v' ≡ len v
      → Spans lo hi (put a v' m)
  unfolding lookup put
  put-Spans lo hi a v v' [] s h e = cc
  put-Spans lo hi a v v' ((b, w) ∷ m) s h e =
      ground (arith, put-Spans (b + len w) hi a v v' m s.2, lookup-lower (b + len w) hi a v m s.2)

  pub containing-put :
      (x lo hi a : ℕ) (v v' : V) (m : Dict V)
      → Spans lo hi m
      → lookup a m ≡ some v
      → len v' ≡ len v
      → containing x (put a v' m)
        ≡ (if leb a x && ltb x (a + len v) then some (a, v') else containing x m)
  unfolding containing lookup put
  containing-put x lo hi a v v' [] s h e = cc
  containing-put x lo hi a v v' ((b, w) ∷ m) s h e =
      ground
        (arith, containing-put x (b + len w) hi a v v' m s.2, lookup-lower (b + len w) hi a v m s.2)

  pub lookup-containing :
      (x lo hi a : ℕ) (v : V) (m : Dict V)
      → Spans lo hi m
      → containing x m ≡ some (a, v)
      → lookup a m ≡ some v
  unfolding containing lookup
  lookup-containing x lo hi a v [] s h = cc
  lookup-containing x lo hi a v ((b, w) ∷ m) s h = ground (
    arith,
    lookup-containing x (b + len w) hi a v m s.2,
    containing-bounds x (b + len w) hi m a v s.2,
  )

  pub containing-lookup :
      (x lo hi a : ℕ) (v : V) (m : Dict V)
      → Spans lo hi m
      → lookup a m ≡ some v
      → a ≤ x
      → x < a + len v
      → containing x m ≡ some (a, v)
  unfolding containing lookup
  containing-lookup x lo hi a v [] s h p q = cc
  containing-lookup x lo hi a v ((b, w) ∷ m) s h p q =
      ground
        (arith, containing-lookup x (b + len w) hi a v m s.2, lookup-lower (b + len w) hi a v m s.2)

  pub Spans-append :
      (lo mid hi : ℕ) (m n : Dict V) → Spans lo mid m → Spans mid hi n → Spans lo hi (m ++ n)
  Spans-append lo mid hi [] n s t = Spans-mono lo mid hi n s t
  Spans-append lo mid hi ((a, v) ∷ m) n s t = (s.0, s.1, Spans-append (a + len v) mid hi m n s.2 t)

  -- A write between the entries of two parts of a map.
  pub put-between :
      (lo mid k : ℕ) (v : V) (m n : Dict V)
      → Spans lo mid m
      → mid ≤ k
      → put k v n ≡ (k, v) ∷ n
      → put k v (m ++ n) ≡ m ++ (k, v) ∷ n
  unfolding put
  put-between lo mid k v [] n s h e = e
  put-between lo mid k v ((a, w) ∷ m) n s h e =
      let le = Spans-le (a + len w) mid m s.2 in
      ground (arith, put-between (a + len w) mid k v m n s.2 h e)
