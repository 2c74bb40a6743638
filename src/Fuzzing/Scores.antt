-- ===== src/Fuzzing/Scores.antt =====
-- src/fuzzing-engine/input_generator.cpp: the bounds of the scores that are kept.
use emulator_momo.Common.{
  ℕ, zero, suc, ◌+◌, ◌%◌, ◌≤◌, ◌<◌, ◌≡◌, refl, not, ◌&&◌, List, [], ◌∷◌, ◌++◌, length,
  length-append, All, arith, ltb, ◌==◌, if◌then◌else◌, Bool-cases, inl, inr, ltb→lt,
}
use emulator_momo.Fuzzing.{
  InputEntry, Generator, new_generator, set_at, lower, higher, lowest_from, find_lowest, StoreDraws,
  store_input_entry, store_all, max_top_scorer,
}

abbrev AtLeast : ℕ → List InputEntry → Type 0
AtLeast low = All (λ e. low ≤ e.score)

abbrev AtMost : ℕ → List InputEntry → Type 0
AtMost high = All (λ e. e.score ≤ high)

-- At most 20 entries are kept, the lowest and the highest score bound their scores, the index of the
-- lowest one is below 20, and the lowest score is 0 as long as there is room.
pub record IsSound (g : Generator) : Type 0 where
  pub few : length g.top_scorer ≤ max_top_scorer
  pub lowest : AtLeast g.lowest_score g.top_scorer
  pub highest : AtMost g.highest_scorer.score g.top_scorer
  pub place : g.lowest_scorer < max_top_scorer
  pub unset : length g.top_scorer < max_top_scorer → g.lowest_score ≡ 0

AtLeast-mono : (low low' : ℕ) (es : List InputEntry) → low ≤ low' → AtLeast low' es → AtLeast low es
AtLeast-mono low low' [] h a = tt
AtLeast-mono low low' (e ∷ es) h a = (omega (arith, a.0), AtLeast-mono low low' es h a.1)

AtMost-mono :
    (high high' : ℕ) (es : List InputEntry) → high ≤ high' → AtMost high es → AtMost high' es
AtMost-mono high high' [] h a = tt
AtMost-mono high high' (e ∷ es) h a = (omega (arith, a.0), AtMost-mono high high' es h a.1)

length-set_at : (i : ℕ) (e : InputEntry) (es : List InputEntry) → length (set_at i e es) ≡ length es
unfolding set_at
length-set_at i e [] = refl
length-set_at zero e (f ∷ es) = refl
length-set_at (suc i) e (f ∷ es) = omega (arith, length-set_at i e es)

set_at-AtMost :
    (high i : ℕ) (e : InputEntry) (es : List InputEntry)
    → e.score ≤ high
    → AtMost high es
    → AtMost high (set_at i e es)
unfolding set_at
set_at-AtMost high i e [] h a = tt
set_at-AtMost high zero e (f ∷ es) h a = (h, a.1)
set_at-AtMost high (suc i) e (f ∷ es) h a = (a.0, set_at-AtMost high i e es h a.1)

append-AtMost :
    (high : ℕ) (e : InputEntry) (es : List InputEntry)
    → e.score ≤ high
    → AtMost high es
    → AtMost high (es ++ e ∷ [])
append-AtMost high e [] h a = (h, tt)
append-AtMost high e (f ∷ es) h a = (a.0, append-AtMost high e es h a.1)

append-AtLeast :
    (low : ℕ) (e : InputEntry) (es : List InputEntry)
    → low ≤ e.score
    → AtLeast low es
    → AtLeast low (es ++ e ∷ [])
append-AtLeast low e [] h a = (h, tt)
append-AtLeast low e (f ∷ es) h a = (a.0, append-AtLeast low e es h a.1)

lower_bounds :
    (e : InputEntry) (i : ℕ) (low : ℕ × ℕ)
    → low.1 < i
    → ((lower e i low).0 ≤ low.0) × ((lower e i low).0 ≤ e.score) × ((lower e i low).1 < suc i)
unfolding lower
lower_bounds e i low h = elim (Bool-cases (ltb e.score low.0)) [
  | inl less ↦ rw (less, lower) (omega (arith, ltb→lt _ _ less), omega arith, omega arith)
  | inr more ↦ rw (more, lower) (omega arith, ground (arith, more), omega (arith, h))
]

-- The loop ends at a score that is not above the one it starts with nor above any that it passes, and at an
-- index that it has seen.
lowest_from-AtLeast :
    (i : ℕ) (es : List InputEntry) (low : ℕ × ℕ)
    → low.1 < i
    → ((lowest_from i es low).0 ≤ low.0)
      × AtLeast (lowest_from i es low).0 es
      × ((lowest_from i es low).1 < i + length es)
unfolding lowest_from
lowest_from-AtLeast i [] low h = (omega arith, tt, omega (arith, h))
lowest_from-AtLeast i (e ∷ es) low h =
    let b = lower_bounds e i low h in
    let r = lowest_from-AtLeast (suc i) es (lower e i low) b.2 in
    (omega (arith, r.0, b.0), (omega (arith, r.0, b.1), r.1), omega (arith, r.2))

find_lowest-AtLeast :
    (es : List InputEntry)
    → 0 < length es
    → AtLeast (find_lowest es).0 es × ((find_lowest es).1 < length es)
unfolding find_lowest
find_lowest-AtLeast [] h = absurd (omega (arith, h))
find_lowest-AtLeast (e ∷ es) h =
    let r = lowest_from-AtLeast 1 es (e.score, 0) (omega arith) in ((r.0, r.1), omega (arith, r.2))

higher_bounds : (e h : InputEntry) → (e.score ≤ (higher e h).score) × (h.score ≤ (higher e h).score)
unfolding higher
higher_bounds e h = elim (Bool-cases (ltb h.score e.score)) [
  | inl more ↦ rw (more, higher) (omega arith, omega (arith, ltb→lt _ _ more))
  | inr less ↦ rw (less, higher) (ground (arith, less), omega arith)
]

-- An entry that is dropped, one that finds room, and one that takes the place of another.
store_input_entry-IsSound :
    (d : StoreDraws) (e : InputEntry) (g : Generator)
    → IsSound g
    → IsSound (store_input_entry d e g)
unfolding store_input_entry
store_input_entry-IsSound d e g h =
    let b = higher_bounds e g.highest_scorer in
    let high = AtMost-mono g.highest_scorer.score _ g.top_scorer b.1 h.highest in
    let index = if d.inserts == 0 then d.position % length g.top_scorer else g.lowest_scorer in
    elim (Bool-cases (ltb e.score g.lowest_score && not (d.keeps == 0))) [
      | inl dropped ↦ rw (dropped, store_input_entry) h
      | inr kept ↦ elim (Bool-cases (ltb (length g.top_scorer) max_top_scorer)) [
        | inl room ↦
            let n = length-append g.top_scorer (e ∷ []) in
            let zero_low = h.unset (ltb→lt _ _ room) in
            rw (kept, room, store_input_entry)
              (record {
                few = omega (arith, n, ltb→lt _ _ room);
                lowest = append-AtLeast _ e g.top_scorer (omega (arith, zero_low)) h.lowest;
                highest = append-AtMost _ e g.top_scorer b.0 high;
                place = h.place;
                unset = λ r. zero_low;
              })
        | inr full ↦
            let n = length-set_at index e g.top_scorer in
            let f = find_lowest-AtLeast (set_at index e g.top_scorer) (ground (arith, n, full)) in
            rw (kept, full, store_input_entry)
              (record {
                few = omega (arith, n, h.few);
                lowest = f.0;
                highest = set_at-AtMost _ index e g.top_scorer b.0 high;
                place = omega (arith, f.1, n, h.few);
                unset = λ r. absurd (ground (arith, n, full, r));
              })
      ]
    ]

new_generator-IsSound : IsSound new_generator
new_generator-IsSound = record {
  few = omega arith;
  lowest = tt;
  highest = tt;
  place = omega arith;
  unset = λ r. refl;
}

store_all-keeps :
    (runs : List (StoreDraws × InputEntry)) (g : Generator) → IsSound g → IsSound (store_all runs g)
unfolding store_all
store_all-keeps [] g h = h
store_all-keeps ((d, e) ∷ runs) g h =
    store_all-keeps runs (store_input_entry d e g) (store_input_entry-IsSound d e g h)

-- Whatever entries are stored in a new generator, with whatever random numbers: at most 20 are kept, no kept score is above the highest
-- one or below the lowest one that is recorded, and the index of the lowest entry, which the next entry replaces, is below 20.
pub store_all-IsSound :
    (runs : List (StoreDraws × InputEntry)) → IsSound (store_all runs new_generator)
store_all-IsSound runs = store_all-keeps runs new_generator new_generator-IsSound
