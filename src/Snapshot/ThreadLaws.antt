-- ===== src/Snapshot/ThreadLaws.antt =====
-- src/windows-emulator/process_context.hpp and handles.hpp: threads and handle stores that come back.
use emulator_momo.Common.{◌<◌, ◌≡◌, Bool, length, All, u64_mod, ok}
use emulator_momo.Serialization.Buffer.{Bytes}
use emulator_momo.Serialization.Codec.{Serializable, RoundTrips, Prefix, reader, before, step, stop}
use emulator_momo.Serialization.Numbers.{uint-RoundTrips, bool-RoundTrips, byte_bound}
use emulator_momo.Serialization.Sequences.{
  Text, Present, string-RoundTrips, optional-RoundTrips, vector-RoundTrips,
}
use emulator_momo.Serialization.Maps.{Ordered, map-RoundTrips}
use emulator_momo.Handles.Store.{HandleStore}
use emulator_momo.Objects.{Thread}
use emulator_momo.Snapshot.MoreLaws.{AllocatorFits, allocator-RoundTrips}
use emulator_momo.Snapshot.Threads.{
  serialize_thread, deserialize_thread, serialize_store, deserialize_store,
}

module _ (debug : Bool) where
  abbrev pub thread : Serializable Thread
  thread = record { serialize = serialize_thread debug; deserialize = deserialize_thread debug }

  -- The numbers fit their widths, and the lengths fit their counts.
  pub record ThreadFits (t : Thread) : Type 0 where
    pub stack_base_fits : (t.stack_base < byte_bound 8)
    pub stack_size_fits : (t.stack_size < byte_bound 8)
    pub start_address_fits : (t.start_address < byte_bound 8)
    pub argument_fits : (t.argument < byte_bound 8)
    pub executed_instructions_fits : (t.executed_instructions < byte_bound 8)
    pub id_fits : (t.id < byte_bound 4)
    pub name_fits : Text debug 2 t.name
    pub exit_status_fits : Present (λ v. v < byte_bound 4) t.exit_status
    pub await_objects_fits :
        (All (λ v. v < byte_bound 8) t.await_objects × (length t.await_objects < u64_mod))
    pub await_time_fits : Present (λ v. v < byte_bound 8) t.await_time
    pub pending_status_fits : Present (λ v. v < byte_bound 4) t.pending_status
    pub gs_segment_fits : Present (AllocatorFits debug) t.gs_segment
    pub teb_fits : Present (λ v. v < byte_bound 8) t.teb
    pub last_registers_fits :
        (All (λ v. v < byte_bound 1) t.last_registers × (length t.last_registers < u64_mod))

  -- A thread whose numbers fit their widths, and whose lengths fit their counts, comes back from
  -- where it was written, in any buffer of less than 2 ^ 64 bytes, with all its fields, and
  -- reading it stops where it ends.
  pub deserialize_thread-serialize_thread :
      (t : Thread) (b whole : Bytes)
      → ThreadFits t
      → length whole < u64_mod
      → Prefix (serialize_thread debug t b) whole
      → deserialize_thread debug (reader whole (length b))
        ≡ ok (t, reader whole (length (serialize_thread debug t b)))
  unfolding serialize_thread deserialize_thread
  deserialize_thread-serialize_thread t b whole h small f =
      (step (uint-RoundTrips debug 8) small t.stack_base h.stack_base_fits _ (
        step (uint-RoundTrips debug 8) small t.stack_size h.stack_size_fits _ (
          step (uint-RoundTrips debug 8) small t.start_address h.start_address_fits _ (
            step (uint-RoundTrips debug 8) small t.argument h.argument_fits _ (
              step (uint-RoundTrips debug 8) small t.executed_instructions
                h.executed_instructions_fits _
                (step (uint-RoundTrips debug 4) small t.id h.id_fits _ (
                  step (string-RoundTrips debug 2) small t.name h.name_fits _ (
                    step (optional-RoundTrips debug (uint-RoundTrips debug 4)) small t.exit_status
                      h.exit_status_fits _
                      (step (vector-RoundTrips debug (uint-RoundTrips debug 8)) small
                        t.await_objects h.await_objects_fits _
                        (step (bool-RoundTrips debug) small t.await_any tt _ (
                          step (bool-RoundTrips debug) small t.waiting_for_alert tt _ (
                            step (bool-RoundTrips debug) small t.alerted tt _ (
                              step (optional-RoundTrips debug (uint-RoundTrips debug 8)) small
                                t.await_time h.await_time_fits _
                                (step (optional-RoundTrips debug (uint-RoundTrips debug 4)) small
                                  t.pending_status h.pending_status_fits _
                                  (step (optional-RoundTrips debug (allocator-RoundTrips debug))
                                    small t.gs_segment h.gs_segment_fits _
                                    (step (optional-RoundTrips debug (uint-RoundTrips debug 8))
                                      small t.teb h.teb_fits _
                                      (step (vector-RoundTrips debug (uint-RoundTrips debug 1))
                                        small t.last_registers h.last_registers_fits _
                                        (stop t f)))))))))))))))))).gives

  pub thread-RoundTrips : RoundTrips thread ThreadFits
  unfolding serialize_thread
  thread-RoundTrips = record {
    extends = λ t b. before (uint-RoundTrips debug 8) t.stack_base _ _ (
        before (uint-RoundTrips debug 8) t.stack_size _ _ (
          before (uint-RoundTrips debug 8) t.start_address _ _ (
            before (uint-RoundTrips debug 8) t.argument _ _ (
              before (uint-RoundTrips debug 8) t.executed_instructions _ _ (
                before (uint-RoundTrips debug 4) t.id _ _ (
                  before (string-RoundTrips debug 2) t.name _ _ (
                    before (optional-RoundTrips debug (uint-RoundTrips debug 4)) t.exit_status _ _ (
                      before (vector-RoundTrips debug (uint-RoundTrips debug 8)) t.await_objects _ _
                        (before (bool-RoundTrips debug) t.await_any _ _ (
                          before (bool-RoundTrips debug) t.waiting_for_alert _ _ (
                            before (bool-RoundTrips debug) t.alerted _ _ (
                              before (optional-RoundTrips debug (uint-RoundTrips debug 8))
                                t.await_time _ _
                                (before (optional-RoundTrips debug (uint-RoundTrips debug 4))
                                  t.pending_status _ _
                                  (before (optional-RoundTrips debug (allocator-RoundTrips debug))
                                    t.gs_segment _ _
                                    (before (optional-RoundTrips debug (uint-RoundTrips debug 8))
                                      t.teb _ _
                                      ((vector-RoundTrips debug (uint-RoundTrips debug 1)).extends
                                        t.last_registers _))))))))))))))));
    reads = deserialize_thread-serialize_thread;
  }

  module _ {V : Type 0} {P : V → Type 0} {c : Serializable V} (law : RoundTrips c P) where
    abbrev pub store : Serializable (HandleStore V)
    store = record { serialize = serialize_store debug c; deserialize = deserialize_store debug c }

    abbrev pub StoreFits : HandleStore V → Type 0
    StoreFits s = Ordered debug 4 law s.entries

    -- A handle store comes back from where it was written, with its entries and its mutation flag,
    -- in any buffer of less than 2 ^ 64 bytes, where its objects come back and fit, and its
    -- indices are 32-bit numbers in order.
    pub deserialize_store-serialize_store :
        (s : HandleStore V) (b whole : Bytes)
        → StoreFits s
        → length whole < u64_mod
        → Prefix (serialize_store debug c s b) whole
        → deserialize_store debug c (reader whole (length b))
          ≡ ok (s, reader whole (length (serialize_store debug c s b)))
    unfolding serialize_store deserialize_store
    deserialize_store-serialize_store s b whole h small f =
        (step (bool-RoundTrips debug) small s.block_mutation tt _
          (step (map-RoundTrips debug 4 law) small s.entries h _ (stop s f))).gives

    -- A handle store comes back, with its handles, where its objects come back and fit, and its indices
    -- are 32-bit numbers in order.
    pub store-RoundTrips : RoundTrips store StoreFits
    unfolding serialize_store
    store-RoundTrips = record {
      extends = λ s b.
          before (bool-RoundTrips debug) s.block_mutation _ _
            ((map-RoundTrips debug 4 law).extends s.entries _);
      reads = deserialize_store-serialize_store;
    }
