-- ===== src/Objects/Locks.antt =====
-- src/windows-emulator/process_context.hpp: the recursion and the exclusion of a mutant.
use emulator_momo.Common.{
  ℕ, zero, suc, ◌+◌, ◌<◌, ◌≤◌, ◌≡◌, ◌≢◌, refl, true, false, ◌-◌, arith, u32_mod, ap, ◌∙◌, eq→==,
  ne→==,
}
use emulator_momo.Objects.{Mutant, try_lock, release}

-- `n` releases.
pub releases : ℕ → Mutant → Mutant
releases zero m = m
releases (suc n) m = releases n (release m).1

-- `n` locks by one thread.
pub locks : ℕ → ℕ → Mutant → Mutant
locks zero t m = m
locks (suc n) t m = (try_lock t (locks n t m)).1

abbrev pub held : ℕ → ℕ → Mutant → Mutant
held n t m = record m { locked_count = n; owning_thread_id = t }

try_lock-held :
    (n t : ℕ) (m : Mutant) → n + 1 < u32_mod → try_lock t (held n t m) ≡ (true, held (suc n) t m)
unfolding try_lock
try_lock-held n t m h = ground (arith, eq→== t t refl)

try_lock-free : (u : ℕ) (m : Mutant) → m.locked_count ≡ 0 → try_lock u m ≡ (true, held 1 u m)
unfolding try_lock
try_lock-free u m free = rw (free, try_lock) refl

try_lock-other :
    (n t u : ℕ) (m : Mutant) → 0 < n → t ≢ u → try_lock u (held n t m) ≡ (false, held n t m)
unfolding try_lock
try_lock-other n t u m p ne = ground (arith, ne→== t u ne)

release-held : (n t : ℕ) (m : Mutant) → release (held (suc n) t m) ≡ (suc n, held n t m)
unfolding release
release-held n t m = ground arith

-- A free mutant after `n` locks by the thread `t`.
locks-held :
    (n t : ℕ) (m : Mutant)
    → m.locked_count ≡ 0
    → n + 1 < u32_mod
    → locks (suc n) t m ≡ held (suc n) t m
unfolding locks
locks-held zero t m free h = ap (λ r. r.1) (try_lock-free t m free)
locks-held (suc n) t m free h =
    ap (λ w. (try_lock t w).1) (locks-held n t m free (omega arith))
    ∙ ap (λ r. r.1) (try_lock-held (suc n) t m (omega arith))

releases-held : (k n t : ℕ) (m : Mutant) → k ≤ n → releases k (held n t m) ≡ held (n - k) t m
unfolding releases
releases-held zero n t m h = let same : n ≡ n - 0 = omega arith in ap (λ j. held j t m) same
releases-held (suc k) zero t m h = absurd (omega arith)
releases-held (suc k) (suc n) t m h =
    let same : n - k ≡ suc n - suc k = omega arith in
    ap (λ r. releases k r.1) (release-held n t m)
    ∙ releases-held k n t m (omega arith)
    ∙ ap (λ j. held j t m) same

-- A free mutant that a thread locks `n` times, from 1 to 2 ^ 32 - 2, and then releases `k` times,
-- fewer than `n`, can be locked again by that thread and by no other, whose attempts do not change it;
-- after `n` releases another thread can lock it, and owns it then.
pub recursive_lock :
    (n k t u : ℕ) (m : Mutant)
    → m.locked_count ≡ 0
    → k < n
    → n + 1 < u32_mod
    → t ≢ u
    → ((try_lock t (releases k (locks n t m))).0 ≡ true)
      × (try_lock u (releases k (locks n t m)) ≡ (false, releases k (locks n t m)))
      × (try_lock u (releases n (locks n t m)) ≡ (true, held 1 u m))
recursive_lock zero k t u m free l h ne = absurd (omega arith)
recursive_lock (suc n) k t u m free l h ne =
    let start = locks-held n t m free (omega arith) in
    let part = ap (releases k) start ∙ releases-held k (suc n) t m (omega arith) in
    let whole : releases (suc n) (locks (suc n) t m) ≡ held (suc n - suc n) t m =
      ap (releases (suc n)) start ∙ releases-held (suc n) (suc n) t m (omega arith) in
    (
      rw part (ap (λ r. r.0) (try_lock-held (suc n - k) t m (omega arith))),
      rw part (try_lock-other (suc n - k) t u m (omega arith) ne),
      rw whole (try_lock-free u (held (suc n - suc n) t m) (omega arith)),
    )
