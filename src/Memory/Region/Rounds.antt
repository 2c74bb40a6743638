-- ===== src/Memory/Region/Rounds.antt =====
-- src/emulator/memory_manager.cpp: the split points that are left to cut, which bound the rounds.
use emulator_momo.Common.{
  ◌⊎◌, ℕ, ◌+◌, ◌-◌, ◌≤◌, ◌<◌, ◌≡◌, refl, Bool, true, false, ◌&&◌, ◌||◌, inl, inr, List, [], ◌∷◌,
  arith, ltb, ◌==◌, if◌then◌else◌, length, u64_mod, Bool-cases, All,
}
use emulator_momo.Memory.Region.{
  CommittedRegion, CommittedRegionMap, split_at, cut_at, inside, straddled,
}
use emulator_momo.Memory.Region.Merge.{Regions}
use emulator_momo.Memory.Region.Cut.{cut_at-eq, cut_at-Keeps}

abbrev pub to_nat : Bool → ℕ
to_nat true = 1
to_nat false = 0

-- The number of split points that lie inside a region.
unfoldable pub cuts : List ℕ → CommittedRegionMap → ℕ
cuts [] m = 0
cuts (p ∷ ps) m = to_nat (straddled p m) + cuts ps m

pub cuts-le : (ps : List ℕ) (m : CommittedRegionMap) → cuts ps m ≤ length ps
unfolding cuts
cuts-le [] m = omega arith
cuts-le (p ∷ ps) m = ground (arith, cuts-le ps m)

abbrev Elem : ℕ → List ℕ → Type 0
Elem p [] = ⊥
Elem p (q ∷ ps) = (p ≡ q) ⊎ Elem p ps

pub straddled_below :
    (p lo hi : ℕ) (m : CommittedRegionMap) → Regions lo hi m → p ≤ lo → straddled p m ≡ false
unfolding straddled
straddled_below p lo hi [] w h = refl
straddled_below p lo hi ((a, r) ∷ m) w h = ground (arith, straddled_below p (a + r.length) hi m w.2)

-- Cutting (a, e) at p takes p, and no other number, out of what lies strictly inside.
inside_cut :
    (a p e x : ℕ) (b : Bool)
    → a < p
    → p < e
    → (x ≤ e → b ≡ false)
    → to_nat (ltb a x && ltb x p || (ltb p x && ltb x e || b)) + (if x == p then 1 else 0)
      ≤ to_nat (ltb a x && ltb x e || b)
inside_cut a p e x true h k below = ground (arith, below)
inside_cut a p e x false h k below = ground arith

if_zero : (b : Bool) → ◌≡◌ {A = ℕ} (if b then 0 else 0) 0
if_zero true = refl
if_zero false = refl

-- A cut at a point of the list takes it off the count.
module _ (a hi : ℕ) (p : ℕ) (r : CommittedRegion) (m : CommittedRegionMap) (h : hi < u64_mod)
    (w : Regions a hi ((a, r) ∷ m)) where
  cut_at-straddled :
      (x : ℕ)
      → to_nat (straddled x ((a, (cut_at a p r m).0) ∷ (cut_at a p r m).1))
          + (if x == p then to_nat (inside p a r) else 0)
        ≤ to_nat (straddled x ((a, r) ∷ m))
  unfolding straddled
  cut_at-straddled x =
      let below = straddled_below x (a + r.length) hi m w.2 in
      elim (Bool-cases (inside p a r)) [
        | inl e ↦
            let ap : a < p = ground arith in
            let pe : p < a + r.length = ground arith in
            let mid : a + (p - a) ≡ p = omega arith in
            let end : p + (r.length - (p - a)) ≡ a + r.length = omega arith in
            rw (cut_at-eq a hi p r m h w, e)
              (rw (mid, end) (inside_cut a p (a + r.length) x (straddled x m) ap pe below))
        | inr e ↦ rw (cut_at-eq a hi p r m h w, e) (omega (arith, if_zero (x == p)))
      ]

  cut_at-cuts-le :
      (ps : List ℕ) → cuts ps ((a, (cut_at a p r m).0) ∷ (cut_at a p r m).1) ≤ cuts ps ((a, r) ∷ m)
  unfolding cuts
  cut_at-cuts-le [] = omega arith
  cut_at-cuts-le (x ∷ ps) = omega (arith, cut_at-straddled x, cut_at-cuts-le ps)

  cut_at-cuts :
      (ps : List ℕ)
      → Elem p ps
      → cuts ps ((a, (cut_at a p r m).0) ∷ (cut_at a p r m).1) + to_nat (inside p a r)
        ≤ cuts ps ((a, r) ∷ m)
  unfolding cuts
  cut_at-cuts [] e = elim e [ ]
  cut_at-cuts (x ∷ ps) (inl e) = ground (arith, cut_at-straddled x, cut_at-cuts-le ps)
  cut_at-cuts (x ∷ ps) (inr e) = ground (arith, cut_at-straddled x, cut_at-cuts ps e)

  -- The map grows by one entry exactly where a cut is made.
  cut_at-measure :
      (ps : List ℕ)
      → Elem p ps
      → length (cut_at a p r m).1 + cuts ps ((a, (cut_at a p r m).0) ∷ (cut_at a p r m).1)
        ≤ length m + cuts ps ((a, r) ∷ m)
  cut_at-measure ps e =
      let c = cut_at-cuts ps e in
      let l : length (cut_at a p r m).1 ≡ length m + to_nat (inside p a r) =
        rw (cut_at-eq a hi p r m h w) (ground arith) in
      omega arith

pub split_at-measure :
    (a hi : ℕ) (qs ps : List ℕ) (r : CommittedRegion) (m : CommittedRegionMap)
    → hi < u64_mod
    → Regions a hi ((a, r) ∷ m)
    → All (λ p. Elem p ps) qs
    → length (split_at a qs r m).1 + cuts ps ((a, (split_at a qs r m).0) ∷ (split_at a qs r m).1)
      ≤ length m + cuts ps ((a, r) ∷ m)
unfolding split_at
split_at-measure a hi [] ps r m h w e = omega arith
split_at-measure a hi (p ∷ qs) ps r m h w e =
    let q = cut_at a p r m in
    omega (
      arith,
      cut_at-measure a hi p r m h w ps e.0,
      split_at-measure a hi qs ps q.0 q.1 h (cut_at-Keeps a hi p r m h w).spans e.1,
    )

Elem-weaken : (q : ℕ) (ps qs : List ℕ) → All (λ p. Elem p ps) qs → All (λ p. Elem p (q ∷ ps)) qs
Elem-weaken q ps [] e = tt
Elem-weaken q ps (x ∷ qs) e = (inr e.0, Elem-weaken q ps qs e.1)

pub Elem-self : (ps : List ℕ) → All (λ p. Elem p ps) ps
Elem-self [] = tt
Elem-self (p ∷ ps) = (inl refl, Elem-weaken p ps ps (Elem-self ps))
