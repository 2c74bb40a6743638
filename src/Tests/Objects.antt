-- ===== src/Tests/Objects.antt =====
-- A process with two events, one mutant and one thread, and the theorems at concrete inputs.
use emulator_momo.Common.{
  ℕ, ◌≡◌, refl, true, false, not, arith, none, some, [], ◌∷◌, Returns, ok, lookup,
}
use emulator_momo.Handles.Value.{get_handle_value, type_code}
use emulator_momo.Handles.Store.{index_of, get, shift_right}
use emulator_momo.Objects.{
  Event, Mutant, Thread, Process, notification_event, synchronization_event, event_kind, resets,
  try_lock, is_thread_ready, mark_as_ready, status_success,
}
use emulator_momo.Objects.Known.{AllKnown, known}
use emulator_momo.Objects.Ready.{Settled, is_thread_ready-Settled}
use emulator_momo.Objects.Locks.{locks, releases, held, recursive_lock}
use emulator_momo.Objects.Waiting.{runnable}
use emulator_momo.Syscalls.{handle_nt_set_event, handle_nt_wait_for_single_object}
use emulator_momo.Syscalls.Waits.{wait_single-set_event}

abbrev door : Event
door = record { ref_count = 1; signaled = false; kind = synchronization_event; name = [] }

abbrev flag : Event
flag = record { ref_count = 1; signaled = true; kind = notification_event; name = [] }

abbrev free_mutant : Mutant
free_mutant = record { ref_count = 1; locked_count = 0; owning_thread_id = 0; name = [] }

abbrev desk : Process
desk = record {
  events = record { block_mutation = false; entries = (1, door) ∷ (2, flag) ∷ [] };
  mutants = record { block_mutation = false; entries = (1, free_mutant) ∷ [] };
  threads = record { block_mutation = false; entries = [] };
}

-- The words of the handles: the type stands from bit 32 on.
abbrev door_handle : ℕ
door_handle = 0x300000001

abbrev flag_handle : ℕ
flag_handle = 0x300000002

abbrev mutant_handle : ℕ
mutant_handle = 0xb00000001

abbrev worker : Thread
worker = record {
  stack_base = 0x20000;
  stack_size = 0x40000;
  start_address = 0x1000;
  argument = 0;
  executed_instructions = 5;
  name = [];
  gs_segment = none;
  teb = none;
  last_registers = 1 ∷ 2 ∷ [];
  id = 7;
  exit_status = none;
  await_objects = flag_handle ∷ mutant_handle ∷ [];
  await_any = false;
  waiting_for_alert = false;
  alerted = false;
  await_time = none;
  pending_status = none;
}

door_found : get event_kind desk.events door_handle ≡ some door
unfolding get index_of get_handle_value type_code shift_right lookup
door_found = refl

worker_known : AllKnown desk worker.await_objects
unfolding known get index_of get_handle_value type_code shift_right lookup
worker_known = (refl, (refl, tt))

is_thread_ready-Settled_example : Returns (is_thread_ready 100 desk worker) (Settled desk worker)
is_thread_ready-Settled_example = is_thread_ready-Settled 100 desk worker worker_known

recursive_lock_example :
    ((try_lock 7 (releases 1 (locks 3 7 free_mutant))).0 ≡ true)
    × (try_lock 8 (releases 1 (locks 3 7 free_mutant))
        ≡ (false, releases 1 (locks 3 7 free_mutant)))
    × (try_lock 8 (releases 3 (locks 3 7 free_mutant)) ≡ (true, held 1 8 free_mutant))
recursive_lock_example =
    recursive_lock 3 1 7 8 free_mutant refl (omega arith) (omega arith) (omega arith)

wait_single-set_event_example :
    let w = (handle_nt_wait_for_single_object (runnable worker) door_handle none).1 in
    (q : Process) × (is_thread_ready 100 desk w ≡ ok (false, w, q))
    × ((q' : Process) × (is_thread_ready 200 (handle_nt_set_event q door_handle).2 w
          ≡ ok (true, mark_as_ready status_success w, q'))
        × (get event_kind q'.events door_handle
            ≡ some (record door { signaled = not (resets door.kind) })))
wait_single-set_event_example =
    wait_single-set_event 100 200 desk worker door_handle door
      (unfold get_handle_value type_code in refl) door_found refl
