-- ===== src/Tests/Handles.antt =====
-- The handle store at events with a reference count, and the theorems at concrete inputs.
use emulator_momo.Common.{ℕ, refl, false, arith, [], ◌∷◌, lookup, Returns, Dict, ◌==◌}
use emulator_momo.Handles.Value.{event}
use emulator_momo.Handles.Store.{
  HandleStore, StoreKind, make_handle, store, erase_handle, find_free_index, free_index_loop,
  shift_left, shift_right,
}
use emulator_momo.Handles.Store.FreeIndex.{IsFirstFree, find_free_index-IsFirstFree}
use emulator_momo.Handles.Store.Laws.{Stored, store-Stored, Erased, erase_handle-Erased}

abbrev counted : StoreKind ℕ
counted = record { kind = event; index_shift = 2; deleter = λ n. (n == 1, n) }

abbrev two_events : Dict ℕ
two_events = (1, 1) ∷ (3, 2) ∷ []

abbrev event_store : HandleStore ℕ
event_store = record { block_mutation = false; entries = two_events }

find_free_index-IsFirstFree_example : IsFirstFree 1 two_events (find_free_index two_events)
find_free_index-IsFirstFree_example = find_free_index-IsFirstFree two_events (omega arith)

store-Stored_example : Returns (store counted event_store 5) (Stored counted event_store 5)
store-Stored_example =
    store-Stored counted event_store 5 refl (omega arith)
      (unfold lookup find_free_index free_index_loop shift_left shift_right in refl)

erase_handle-Erased_example :
    Returns
      (erase_handle counted event_store (make_handle counted 3))
      (Erased counted event_store (make_handle counted 3))
erase_handle-Erased_example =
    erase_handle-Erased counted event_store (make_handle counted 3) refl (omega arith)
