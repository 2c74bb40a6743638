-- ===== src/Memory/SpansErase.antt =====
-- Maps of spans: taking an entry out, and moving its start up.
use emulator_momo.Common.{
  ℕ, ◌+◌, ◌≤◌, ◌<◌, ◌≡◌, ◌&&◌, none, some, [], ◌∷◌, arith, Dict, lookup, put, erase, ltb, leb, ◌==◌,
  if◌then◌else◌, All, inl, inr, Bool-cases, ◌⊎◌, ap, subst,
}
use emulator_momo.Memory.Spans.{
  Spans, Spans-mono, containing, containing-below, lookup-lower, put-front,
}

module _ {V : Type 0} (len : V → ℕ) where
  pub erase-Spans :
      (lo hi a : ℕ) (v : V) (m : Dict V)
      → Spans len lo hi m
      → lookup a m ≡ some v
      → Spans len lo hi (erase a m)
  unfolding lookup erase
  erase-Spans lo hi a v [] s h = cc
  erase-Spans lo hi a v ((b, w) ∷ m) s h = elim (Bool-cases (b == a)) [
    | inl e ↦ rw (e, erase) (Spans-mono len lo (b + len w) hi m (omega arith) s.2)
    | inr e ↦ rw (e, erase) (s.0, s.1, erase-Spans (b + len w) hi a v m s.2 (rw e at h))
  ]

  pub containing-erase :
      (x lo hi a : ℕ) (v : V) (m : Dict V)
      → Spans len lo hi m
      → lookup a m ≡ some v
      → containing len x (erase a m)
        ≡ (if leb a x && ltb x (a + len v) then none else containing len x m)
  unfolding containing lookup erase
  containing-erase x lo hi a v [] s h = cc
  containing-erase x lo hi a v ((b, w) ∷ m) s h = ground (
    arith,
    containing-erase x (b + len w) hi a v m s.2,
    containing-below len x (b + len w) hi m s.2,
    lookup-lower len (b + len w) hi a v m s.2,
  )

  -- The entry at `a` gives way to `v'` at `k`, with the same end.
  module _ (a k : ℕ) (v v' : V) (above : a < k) (inside : 0 < len v')
      (same : k + len v' ≡ a + len v) where
    pub move-cons :
        (lo hi : ℕ) (m : Dict V) (b : ℕ) (w : V)
        → Spans len lo hi ((b, w) ∷ m)
        → lookup a ((b, w) ∷ m) ≡ some v
        → ((b ≡ a) × (w ≡ v) × (erase a (put k v' ((b, w) ∷ m)) ≡ (k, v') ∷ m))
          ⊎ ((b + len w ≤ a)
              × (lookup a m ≡ some v)
              × (erase a (put k v' ((b, w) ∷ m)) ≡ (b, w) ∷ erase a (put k v' m)))
    unfolding lookup erase put
    move-cons lo hi m b w s h = elim (Bool-cases (b == a)) [
      | inl e ↦
          inl (ground arith, ground arith, ground (arith, put-front len k (b + len w) hi v' m s.2))
      | inr e ↦
          let l : lookup a m ≡ some v = rw e at h in
          let lower = lookup-lower len (b + len w) hi a v m s.2 l in inr (lower, l, ground arith)
    ]

    pub move-Spans :
        (lo hi : ℕ) (m : Dict V)
        → Spans len lo hi m
        → lookup a m ≡ some v
        → Spans len lo hi (erase a (put k v' m))
    unfolding lookup
    move-Spans lo hi [] s h = cc
    move-Spans lo hi ((b, w) ∷ m) s h = elim (move-cons lo hi m b w s h) [
      | inl (e, f, g) ↦
          let up : b + len w ≡ k + len v' = omega (arith, ap len f) in
          rw g (omega arith, inside, subst (λ z. Spans len z hi m) up s.2)
      | inr (e, l, g) ↦ rw g (s.0, s.1, move-Spans (b + len w) hi m s.2 l)
    ]

    pub containing-move :
        (x lo hi : ℕ) (m : Dict V)
        → Spans len lo hi m
        → lookup a m ≡ some v
        → containing len x (erase a (put k v' m)) ≡ (
            if leb a x && ltb x (a + len v)
            then (if ltb x k then none else some (k, v'))
            else containing len x m)
    unfolding lookup containing
    containing-move x lo hi [] s h = cc
    containing-move x lo hi ((b, w) ∷ m) s h = elim (move-cons lo hi m b w s h) [
      | inl (e, f, g) ↦
          let n = ap len f in rw g (ground (arith, n, containing-below len x (b + len w) hi m s.2))
      | inr (e, l, g) ↦ rw g (ground (arith, containing-move x (b + len w) hi m s.2 l))
    ]

    pub All-move :
        (P : ℕ × V → Type 0) (lo hi : ℕ) (m : Dict V)
        → Spans len lo hi m
        → lookup a m ≡ some v
        → P (k, v')
        → All P m
        → All P (erase a (put k v' m))
    unfolding lookup
    All-move P lo hi [] s h p q = cc
    All-move P lo hi ((b, w) ∷ m) s h p q = elim (move-cons lo hi m b w s h) [
      | inl (e, f, g) ↦ rw g (p, q.1)
      | inr (e, l, g) ↦ rw g (q.0, All-move P (b + len w) hi m s.2 l p q.1)
    ]

  pub All-erase : (P : ℕ × V → Type 0) (a : ℕ) (m : Dict V) → All P m → All P (erase a m)
  unfolding erase
  All-erase P a [] q = tt
  All-erase P a ((b, w) ∷ m) q = ground (arith, q.0, q.1, All-erase P a m q.1)
