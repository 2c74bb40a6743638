-- ===== src/Fuzzing.antt =====
-- src/fuzzing-engine/input_generator.cpp: the inputs that a fuzzer mutates, and the best ones that it keeps.
pub mod Scores
pub mod Mutation
use emulator_momo.Common.{
  ℕ, zero, suc, ◌+◌, ◌-◌, ◌%◌, not, ◌&&◌, ◌||◌, List, [], ◌∷◌, ◌++◌, length, take, ltb, ◌==◌,
  if◌then◌else◌,
}

abbrev pub max_top_scorer : ℕ
max_top_scorer = 20

-- `input_entry`
pub record InputEntry : Type 0 where
  pub bytes : List ℕ
  pub score : ℕ

-- `input_generator` without its lock and its source of random numbers.
pub record Generator : Type 0 where
  pub top_scorer : List InputEntry
  pub lowest_score : ℕ
  pub lowest_scorer : ℕ
  pub highest_scorer : InputEntry

abbrev pub new_generator : Generator
new_generator = record {
  top_scorer = [];
  lowest_score = 0;
  lowest_scorer = 0;
  highest_scorer = record { bytes = []; score = 0 };
}

-- `xs[i] = x`
unfoldable pub set_at {ℓ} : {A : Type ℓ} → ℕ → A → List A → List A
set_at i x [] = []
set_at zero x (y ∷ ys) = x ∷ ys
set_at (suc i) x (y ∷ ys) = y ∷ set_at i x ys

-- `input.resize(n)`, which appends zeros.
unfoldable pub zeros : ℕ → List ℕ
zeros zero = []
zeros (suc n) = 0 ∷ zeros n

-- What the source of random numbers gives to one mutation, in the order of the calls.
pub record MutationDraws : Type 0 where
  pub grows : ℕ
  pub new_bytes : ℕ
  pub shrinks : ℕ
  pub remove_bytes : ℕ
  pub mutations : ℕ
  pub change : ℕ → ℕ × ℕ

unfoldable pub resize_input : MutationDraws → List ℕ → List ℕ
resize_input d input =
    if length input == 0 || d.grows == 0
    then input ++ zeros (d.new_bytes + 1)
    else if d.shrinks == 0
    then take (length input - d.remove_bytes % length input) input
    else input

-- The loop over the mutations, by the rounds left.
unfoldable pub change_bytes : ℕ → ℕ → MutationDraws → List ℕ → List ℕ
change_bytes zero i d input = input
change_bytes (suc n) i d input =
    let (index, value) = d.change i in
    change_bytes n (suc i) d (set_at (index % length input) (value % 256) input)

unfoldable pub mutate_input : MutationDraws → List ℕ → List ℕ
unfolding resize_input change_bytes
mutate_input d input =
    let resized = resize_input d input in
    change_bytes ((d.mutations + 1) % length resized) 0 d resized

unfoldable pub lower : InputEntry → ℕ → ℕ × ℕ → ℕ × ℕ
lower e i lowest = if ltb e.score lowest.0 then (e.score, i) else lowest

-- The loop that looks for the lowest score, from the index `i` on: the score and its index.
unfoldable pub lowest_from : ℕ → List InputEntry → ℕ × ℕ → ℕ × ℕ
unfolding lower
lowest_from i [] lowest = lowest
lowest_from i (e ∷ es) lowest = lowest_from (suc i) es (lower e i lowest)

unfoldable pub find_lowest : List InputEntry → ℕ × ℕ
unfolding lowest_from
find_lowest [] = (0, 0)
find_lowest (e ∷ es) = lowest_from 1 es (e.score, 0)

-- What the source of random numbers gives to one call of `store_input_entry`.
pub record StoreDraws : Type 0 where
  pub keeps : ℕ
  pub inserts : ℕ
  pub position : ℕ

-- The entry with the highest score, where an equal one stays.
unfoldable pub higher : InputEntry → InputEntry → InputEntry
higher entry highest = if ltb highest.score entry.score then entry else highest

unfoldable pub store_input_entry : StoreDraws → InputEntry → Generator → Generator
unfolding higher
store_input_entry d entry g =
    let noted = record g { highest_scorer = higher entry g.highest_scorer } in
    let index = if d.inserts == 0 then d.position % length g.top_scorer else g.lowest_scorer in
    let top = set_at index entry g.top_scorer in
    if ltb entry.score g.lowest_score && not (d.keeps == 0)
    then g
    else if ltb (length g.top_scorer) max_top_scorer
    then record noted { top_scorer = g.top_scorer ++ entry ∷ [] }
    else record noted {
      top_scorer = top;
      lowest_score = (find_lowest top).0;
      lowest_scorer = (find_lowest top).1;
    }

-- One entry after another.
unfoldable pub store_all : List (StoreDraws × InputEntry) → Generator → Generator
store_all [] g = g
store_all ((d, e) ∷ rest) g = store_all rest (store_input_entry d e g)
