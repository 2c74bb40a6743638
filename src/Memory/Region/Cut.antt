-- ===== src/Memory/Region/Cut.antt =====
-- src/emulator/memory_manager.cpp: what splitting one region keeps.
use emulator_momo.Common.{
  ◌∙◌, ℕ, ◌+◌, ◌-◌, ◌≤◌, ◌<◌, ◌≡◌, refl, false, inl, inr, List, [], ◌∷◌, arith, if◌then◌else◌,
  add64-eq, sub64-eq, u64_mod, Bool-cases, All,
}
use emulator_momo.Memory.Address.{is_within_start_and_length}
use emulator_momo.Memory.Spans.{Spans-le, put-front}
use emulator_momo.Memory.Region.{
  CommittedRegion, CommittedRegionMap, split_at, committed_at, cut_at, inside,
}
use emulator_momo.Memory.Region.Merge.{Regions}

pub cons-same :
    (a : ℕ) (r : CommittedRegion) (m m' : CommittedRegionMap) (x : ℕ)
    → committed_at m' x ≡ committed_at m x
    → committed_at ((a, r) ∷ m') x ≡ committed_at ((a, r) ∷ m) x
unfolding committed_at
cons-same a r m m' x e = rw e

-- What splitting the region at `a` keeps.
pub record Keeps (a hi : ℕ) (r : CommittedRegion) (m : CommittedRegionMap)
    (q : CommittedRegion × CommittedRegionMap) : Type 0 where
  pub spans : Regions a hi ((a, q.0) ∷ q.1)
  shorter : q.0.length ≤ r.length
  pub same : (x : ℕ) → committed_at ((a, q.0) ∷ q.1) x ≡ committed_at ((a, r) ∷ m) x

module _ (a hi : ℕ) (p : ℕ) (r : CommittedRegion) (m : CommittedRegionMap) (h : hi < u64_mod)
    (w : Regions a hi ((a, r) ∷ m)) where
  fits : a + r.length ≤ hi
  fits = Spans-le (λ (r : CommittedRegion). r.length) (a + r.length) hi m w.2

  -- The cut written without the wrap-around and with the new entry in front.
  pub cut_at-eq : cut_at a p r m ≡ (
      if inside p a r
      then (record r { length = p - a }, (p, record r { length = r.length - (p - a) }) ∷ m)
      else (r, m))
  unfolding cut_at is_within_start_and_length
  cut_at-eq = ground (
    arith,
    fits,
    add64-eq a r.length,
    sub64-eq p a,
    sub64-eq r.length (p - a),
    put-front (λ (r : CommittedRegion). r.length) p (a + r.length) hi
        (record r { length = r.length - (p - a) }) m w.2,
  )

  pub cut_at-Keeps : Keeps a hi r m (cut_at a p r m)
  unfolding committed_at
  cut_at-Keeps = elim (Bool-cases (inside p a r)) [
    | inr e ↦ rw (cut_at-eq, e) (record { spans = w; shorter = omega arith; same = λ x. refl })
    | inl e ↦
        rw (cut_at-eq, e)
          (record { spans = ground (arith, w.2); shorter = ground arith; same = λ x. ground arith })
  ]

  cut_at-clear : inside p a (cut_at a p r m).0 ≡ false
  cut_at-clear = rw cut_at-eq (ground arith)

Keeps-trans :
    (a hi : ℕ) (r : CommittedRegion) (m : CommittedRegionMap)
    (q s : CommittedRegion × CommittedRegionMap)
    → Keeps a hi r m q
    → Keeps a hi q.0 q.1 s
    → Keeps a hi r m s
Keeps-trans a hi r m q s k l = record {
  spans = l.spans;
  shorter = omega (arith, k.shorter, l.shorter);
  same = λ x. l.same x ∙ k.same x;
}

pub split_at-Keeps :
    (a hi : ℕ) (ps : List ℕ) (r : CommittedRegion) (m : CommittedRegionMap)
    → hi < u64_mod
    → Regions a hi ((a, r) ∷ m)
    → Keeps a hi r m (split_at a ps r m)
unfolding split_at
split_at-Keeps a hi [] r m h w = record { spans = w; shorter = omega arith; same = λ x. refl }
split_at-Keeps a hi (p ∷ ps) r m h w =
    let q = cut_at a p r m in
    let k = cut_at-Keeps a hi p r m h w in
    Keeps-trans a hi r m q (split_at a ps q.0 q.1) k (split_at-Keeps a hi ps q.0 q.1 h k.spans)

inside-shorter :
    (p a : ℕ) (r s : CommittedRegion)
    → s.length ≤ r.length
    → inside p a r ≡ false
    → inside p a s ≡ false
inside-shorter p a r s h e = ground arith

pub split_at-clear :
    (a hi : ℕ) (ps : List ℕ) (r : CommittedRegion) (m : CommittedRegionMap)
    → hi < u64_mod
    → Regions a hi ((a, r) ∷ m)
    → All (λ p. inside p a (split_at a ps r m).0 ≡ false) ps
unfolding split_at
split_at-clear a hi [] r m h w = tt
split_at-clear a hi (p ∷ ps) r m h w =
    let q = cut_at a p r m in
    let k = cut_at-Keeps a hi p r m h w in
    (
      inside-shorter p a q.0 (split_at a ps q.0 q.1).0
          (split_at-Keeps a hi ps q.0 q.1 h k.spans).shorter (cut_at-clear a hi p r m h w),
      split_at-clear a hi ps q.0 q.1 h k.spans,
    )
