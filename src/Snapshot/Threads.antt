-- ===== src/Snapshot/Threads.antt =====
-- src/windows-emulator/process_context.hpp and handles.hpp: writing and reading threads and handle
-- stores.
use emulator_momo.Common.{ℕ, Bool, Result, ok, ◌>>=◌}
use emulator_momo.Allocator.{Allocator}
use emulator_momo.Handles.Store.{HandleStore}
use emulator_momo.Objects.{Thread}
use emulator_momo.Serialization.Buffer.{
  Bytes, Deserializer, write_uint, read_uint, write_bool, read_bool,
}
use emulator_momo.Serialization.Codec.{Serializable}
use emulator_momo.Serialization.Containers.{
  write_string, read_string, write_optional, read_optional, write_span, read_vector, write_map,
  read_map,
}
use emulator_momo.Snapshot.Objects.{serialize_allocator, deserialize_allocator}

-- An `emulator_object` is written as its address, a handle as its word, a point in time as its count.
module _ (debug : Bool) where
  abbrev uint : ℕ → Serializable ℕ
  uint n = record { serialize = write_uint debug n; deserialize = read_uint debug n }

  abbrev allocator : Serializable Allocator
  allocator = record {
    serialize = serialize_allocator debug;
    deserialize = deserialize_allocator debug;
  }

  unfoldable pub serialize_thread : Thread → Bytes → Bytes
  serialize_thread t b₀ =
      let b₁ = write_uint debug 8 t.stack_base b₀ in
      let b₂ = write_uint debug 8 t.stack_size b₁ in
      let b₃ = write_uint debug 8 t.start_address b₂ in
      let b₄ = write_uint debug 8 t.argument b₃ in
      let b₅ = write_uint debug 8 t.executed_instructions b₄ in
      let b₆ = write_uint debug 4 t.id b₅ in
      let b₇ = write_string debug 2 t.name b₆ in
      let b₈ = write_optional debug (uint 4) t.exit_status b₇ in
      let b₉ = write_span debug (uint 8) t.await_objects b₈ in
      let b₁₀ = write_bool debug t.await_any b₉ in
      let b₁₁ = write_bool debug t.waiting_for_alert b₁₀ in
      let b₁₂ = write_bool debug t.alerted b₁₁ in
      let b₁₃ = write_optional debug (uint 8) t.await_time b₁₂ in
      let b₁₄ = write_optional debug (uint 4) t.pending_status b₁₃ in
      let b₁₅ = write_optional debug allocator t.gs_segment b₁₄ in
      let b₁₆ = write_optional debug (uint 8) t.teb b₁₅ in
      write_span debug (uint 1) t.last_registers b₁₆

  -- Into a new thread, which has no memory to release before.
  unfoldable pub deserialize_thread : Deserializer → Result (Thread × Deserializer)
  deserialize_thread s = do
    stack_base ← read_uint debug 8 s
    stack_size ← read_uint debug 8 stack_base.1
    start_address ← read_uint debug 8 stack_size.1
    argument ← read_uint debug 8 start_address.1
    executed_instructions ← read_uint debug 8 argument.1
    id ← read_uint debug 4 executed_instructions.1
    name ← read_string debug 2 id.1
    exit_status ← read_optional debug (uint 4) name.1
    await_objects ← read_vector debug (uint 8) exit_status.1
    await_any ← read_bool debug await_objects.1
    waiting_for_alert ← read_bool debug await_any.1
    alerted ← read_bool debug waiting_for_alert.1
    await_time ← read_optional debug (uint 8) alerted.1
    pending_status ← read_optional debug (uint 4) await_time.1
    gs_segment ← read_optional debug allocator pending_status.1
    teb ← read_optional debug (uint 8) gs_segment.1
    last_registers ← read_vector debug (uint 1) teb.1
    ok (
      record {
        stack_base = stack_base.0;
        stack_size = stack_size.0;
        start_address = start_address.0;
        argument = argument.0;
        executed_instructions = executed_instructions.0;
        id = id.0;
        name = name.0;
        exit_status = exit_status.0;
        await_objects = await_objects.0;
        await_any = await_any.0;
        waiting_for_alert = waiting_for_alert.0;
        alerted = alerted.0;
        await_time = await_time.0;
        pending_status = pending_status.0;
        gs_segment = gs_segment.0;
        teb = teb.0;
        last_registers = last_registers.0;
      },
      last_registers.1,
    )

  module _ {V : Type 0} (c : Serializable V) where
    unfoldable pub serialize_store : HandleStore V → Bytes → Bytes
    serialize_store s b = write_map debug 4 c s.entries (write_bool debug s.block_mutation b)

    unfoldable pub deserialize_store : Deserializer → Result (HandleStore V × Deserializer)
    deserialize_store s = do
      block_mutation ← read_bool debug s
      entries ← read_map debug 4 c block_mutation.1
      ok (record { block_mutation = block_mutation.0; entries = entries.0 }, entries.1)
