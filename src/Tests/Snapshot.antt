-- ===== src/Tests/Snapshot.antt =====
-- Objects, threads and memory states that are written and read back, and the theorems at concrete
-- inputs.
use emulator_momo.Common.{
  ℕ, zero, suc, ◌+◌, ◌<◌, ◌≡◌, refl, true, false, none, some, [], ◌∷◌, arith, length, ok, thrown,
  ◌⊎◌, ◌++◌, Dict,
}
use emulator_momo.Handles.Store.{HandleStore}
use emulator_momo.Memory.Reserved.{ReservedRegionMap}
use emulator_momo.Objects.{Event, Thread, synchronization_event}
use emulator_momo.Serialization.Buffer.{
  Bytes, Deserializer, write, write_uint, write_bool, to_bytes, read_data,
}
use emulator_momo.Serialization.Codec.{reader, Prefix_refl}
use emulator_momo.Serialization.Containers.{
  write_string, write_optional, write_span, write_all, write_map, write_entries,
}
use emulator_momo.Serialization.Numbers.{uint}
use emulator_momo.Serialization.Sequences.{Text}
use emulator_momo.Serialization.Maps.{Ordered}
use emulator_momo.Serialization.Bounds.{Inside, read_data_cases}
use emulator_momo.Snapshot.Objects.{serialize_event, serialize_allocator}
use emulator_momo.Snapshot.ObjectLaws.{event, EventFits, event-RoundTrips}
use emulator_momo.Snapshot.Threads.{
  serialize_thread, deserialize_thread, serialize_store, deserialize_store,
}
use emulator_momo.Snapshot.ThreadLaws.{
  ThreadFits, StoreFits, deserialize_thread-serialize_thread, deserialize_store-serialize_store,
}
use emulator_momo.Snapshot.MemoryState.{
  serialize_memory_state, serialize_reserved, serialize_committed, write_regions, write_contents,
  unmap_all, deserialize_memory_state,
}
use emulator_momo.Snapshot.MemoryState.Restore.{
  reserved-RoundTrips, without_mmio, restore_all, deserialize_memory_state-serialize_memory_state,
}

abbrev bell : Event
bell = record { ref_count = 2; signaled = true; kind = synchronization_event; name = 98 ∷ 300 ∷ [] }

bell_name_Text : Text true 2 bell.name
bell_name_Text = ((omega arith, (omega arith, tt)), omega arith)

abbrev bells : HandleStore Event
bells = record { block_mutation = true; entries = (1, bell) ∷ (7, bell) ∷ [] }

abbrev bells_bytes : Bytes
bells_bytes = serialize_store false (event false) bells []

bells_bytes_lem : length bells_bytes ≡ 59
unfolding serialize_store write_map write_entries serialize_event write_uint write write_string
    write_span write_all write_bool to_bytes
bells_bytes_lem = refl

bells-StoreFits : StoreFits false (event-RoundTrips false) bells
bells-StoreFits =
    let fits : EventFits false bell = (bell_name_Text, omega arith) in
    (
      ((omega arith, fits), ((omega arith, fits), tt)),
      (omega arith, (omega arith, tt)),
      omega arith,
    )

deserialize_store-serialize_store_example :
    deserialize_store false (event false) (reader bells_bytes 0)
    ≡ ok (bells, reader bells_bytes (length bells_bytes))
deserialize_store-serialize_store_example =
    deserialize_store-serialize_store false (event-RoundTrips false) bells [] bells_bytes
      bells-StoreFits (omega (arith, bells_bytes_lem)) (Prefix_refl bells_bytes)

abbrev numbers : Dict ℕ
numbers = (3, 500) ∷ (4, 6) ∷ []

abbrev numbers_bytes : Bytes
numbers_bytes = write_map true 4 (uint true 2) numbers []

numbers_bytes_lem : length numbers_bytes ≡ 60
unfolding write_map write_entries write_uint write to_bytes
numbers_bytes_lem = refl

abbrev waiting : Thread
waiting = record {
  stack_base = 0x20000;
  stack_size = 0x40000;
  start_address = 0x1000;
  argument = 0;
  executed_instructions = 5;
  name = 116 ∷ [];
  gs_segment = some (record { address = 0x70000; size = 0x1000; active_address = 0x70800 });
  teb = some 0x70000;
  last_registers = 1 ∷ 255 ∷ [];
  id = 7;
  exit_status = none;
  await_objects = 0x300000001 ∷ [];
  await_any = true;
  waiting_for_alert = false;
  alerted = false;
  await_time = some 1000;
  pending_status = none;
}

abbrev waiting_bytes : Bytes
waiting_bytes = serialize_thread false waiting []

waiting_bytes_lem : length waiting_bytes ≡ 128
unfolding serialize_thread serialize_allocator write_optional write_uint write write_string
    write_span write_all write_bool to_bytes
waiting_bytes_lem = refl

waiting-ThreadFits : ThreadFits false waiting
waiting-ThreadFits = record {
  stack_base_fits = omega arith;
  stack_size_fits = omega arith;
  start_address_fits = omega arith;
  argument_fits = omega arith;
  executed_instructions_fits = omega arith;
  id_fits = omega arith;
  name_fits = ((omega arith, tt), omega arith);
  exit_status_fits = tt;
  await_objects_fits = ((omega arith, tt), omega arith);
  await_time_fits = omega arith;
  pending_status_fits = tt;
  gs_segment_fits = (omega arith, omega arith, omega arith);
  teb_fits = omega arith;
  last_registers_fits = ((omega arith, (omega arith, tt)), omega arith);
}

deserialize_thread-serialize_thread_example :
    deserialize_thread false (reader waiting_bytes 0)
    ≡ ok (waiting, reader waiting_bytes (length waiting_bytes))
deserialize_thread-serialize_thread_example =
    deserialize_thread-serialize_thread false waiting [] waiting_bytes waiting-ThreadFits
      (omega (arith, waiting_bytes_lem)) (Prefix_refl waiting_bytes)

-- Memory that holds sevens.
sevens : ℕ → Bytes
sevens zero = []
sevens (suc n) = 7 ∷ sevens n

length-sevens : (n : ℕ) → length (sevens n) ≡ n
unfolding sevens
length-sevens zero = refl
length-sevens (suc n) = omega (arith, length-sevens n)

abbrev memory : ℕ → ℕ → Bytes
memory a n = sevens n

abbrev two_regions : ReservedRegionMap
two_regions =
    (
      0x10000,
      record {
        length = 8;
        committed = (0x10000, record { length = 4; permissions = 3 }) ∷ [];
        is_mmio = false;
      },
    )
    ∷ (0x20000, record { length = 4; committed = []; is_mmio = true })
    ∷ []

abbrev state_bytes : Bytes
state_bytes = serialize_memory_state false memory two_regions false []

state_bytes_lem : length state_bytes ≡ 79
unfolding serialize_memory_state write_contents write_regions serialize_reserved serialize_committed
    write_map write_entries write_uint write write_bool to_bytes sevens
state_bytes_lem = refl

two_regions-Ordered : Ordered false 8 (reserved-RoundTrips false) two_regions
two_regions-Ordered = (
  (
    (
      omega arith,
      (
        omega arith,
        (((omega arith, (omega arith, omega arith)), tt), (omega arith, tt), omega arith),
      ),
    ),
    ((omega arith, (omega arith, (tt, tt, omega arith))), tt),
  ),
  (omega arith, (omega arith, tt)),
  omega arith,
)

deserialize_memory_state-serialize_memory_state_example :
    deserialize_memory_state false two_regions false (reader state_bytes 0)
    ≡ ok (
      (
        without_mmio false two_regions,
        unmap_all two_regions ++ restore_all false memory two_regions,
      ),
      reader state_bytes (length state_bytes),
    )
deserialize_memory_state-serialize_memory_state_example =
    deserialize_memory_state-serialize_memory_state false memory (λ a n. length-sevens n)
      two_regions two_regions false [] state_bytes two_regions-Ordered
      (omega (arith, state_bytes_lem)) (Prefix_refl state_bytes)

abbrev three_bytes : Deserializer
three_bytes = record { no_debugging = false; offset = 1; buffer = 1 ∷ 2 ∷ 3 ∷ [] }

read_data_cases_example :
    ((read_data false 2 three_bytes ≡ thrown)
      ⊎ ((r : Bytes × Deserializer) × (read_data false 2 three_bytes ≡ ok r)
          × Inside 2 three_bytes r))
    × (length three_bytes.buffer < three_bytes.offset + 2 → read_data false 2 three_bytes ≡ thrown)
read_data_cases_example = read_data_cases false 2 three_bytes (omega arith)
