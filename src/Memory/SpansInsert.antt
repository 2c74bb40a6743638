-- ===== src/Memory/SpansInsert.antt =====
-- Maps of spans: putting a new entry into a free range.
use emulator_momo.Common.{
  ℕ, ◌+◌, ◌≤◌, ◌<◌, ◌≡◌, refl, ◌&&◌, none, some, [], ◌∷◌, arith, Dict, lookup, put, ltb, leb,
  if◌then◌else◌, All, inl, inr, ◌⊎◌,
}
use emulator_momo.Memory.Spans.{Spans, containing}

-- A span of `n` addresses from `a` on ends before the entry, or starts behind it.
abbrev pub Apart : {V : Type 0} → (V → ℕ) → ℕ → ℕ → ℕ × V → Type 0
Apart len a n (b, w) = (a + n ≤ b) ⊎ (b + len w ≤ a)

module _ {V : Type 0} (len : V → ℕ) (a : ℕ) (v : V) (some_length : 0 < len v) where
  pub lookup-Apart :
      (lo hi : ℕ) (m : Dict V) → Spans len lo hi m → All (Apart len a (len v)) m → lookup a m ≡ none
  unfolding lookup
  lookup-Apart lo hi [] s f = refl
  lookup-Apart lo hi ((b, w) ∷ m) s f = ground (arith, f.0, lookup-Apart (b + len w) hi m s.2 f.1)

  pub containing-Apart :
      (x : ℕ) (m : Dict V)
      → All (Apart len a (len v)) m
      → a ≤ x
      → x < a + len v
      → containing len x m ≡ none
  unfolding containing
  containing-Apart x [] f p q = refl
  containing-Apart x ((b, w) ∷ m) f p q = ground (arith, f.0, containing-Apart x m f.1 p q)

  pub insert-Spans :
      (lo hi : ℕ) (m : Dict V)
      → Spans len lo hi m
      → All (Apart len a (len v)) m
      → lo ≤ a
      → a + len v ≤ hi
      → Spans len lo hi (put a v m)
  unfolding put
  insert-Spans lo hi [] s f h k = (h, some_length, k)
  insert-Spans lo hi ((b, w) ∷ m) s f h k = elim f.0 [
    | inl e ↦ ground (arith, s.2)
    | inr e ↦ ground (arith, s.2, insert-Spans (b + len w) hi m s.2 f.1 e k)
  ]

  pub containing-insert :
      (x lo hi : ℕ) (m : Dict V)
      → Spans len lo hi m
      → All (Apart len a (len v)) m
      → containing len x (put a v m)
        ≡ (if leb a x && ltb x (a + len v) then some (a, v) else containing len x m)
  unfolding put containing
  containing-insert x lo hi [] s f = refl
  containing-insert x lo hi ((b, w) ∷ m) s f = elim f.0 [
    | inl e ↦ ground arith
    | inr e ↦ ground (arith, containing-insert x (b + len w) hi m s.2 f.1)
  ]

  pub All-insert : (P : ℕ × V → Type 0) (m : Dict V) → P (a, v) → All P m → All P (put a v m)
  unfolding put
  All-insert P [] p q = (p, tt)
  All-insert P ((b, w) ∷ m) p q = ground (arith, p, q.0, q.1, All-insert P m p q.1)
