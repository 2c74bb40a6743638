-- ===== src/Tests/Fuzzing.antt =====
-- Inputs that are stored and mutated, and the theorems at concrete inputs.
use emulator_momo.Common.{ℕ, [], ◌∷◌, List}
use emulator_momo.Fuzzing.{InputEntry, new_generator, MutationDraws, StoreDraws, store_all}
use emulator_momo.Fuzzing.Scores.{IsSound, store_all-IsSound}

abbrev entry_of : ℕ → InputEntry
entry_of score = record { bytes = score ∷ []; score = score }

abbrev draw : StoreDraws
draw = record { keeps = 1; inserts = 1; position = 3 }

abbrev entries : List (StoreDraws × InputEntry)
entries = (draw, entry_of 5) ∷ (draw, entry_of 9) ∷ (draw, entry_of 2) ∷ []

store_all-IsSound_example : IsSound (store_all entries new_generator)
store_all-IsSound_example = store_all-IsSound entries

abbrev shrinking : MutationDraws
shrinking = record {
  grows = 1;
  new_bytes = 0;
  shrinks = 0;
  remove_bytes = 5;
  mutations = 1;
  change = λ i. (i, 300);
}
