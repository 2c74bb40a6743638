-- ===== src/Snapshot/Objects.antt =====
-- src/windows-emulator/process_context.hpp: writing and reading the objects that handles name.
use emulator_momo.Common.{ℕ, Bool, List, ◌==◌, if◌then◌else◌, Result, ok, ◌>>=◌}
use emulator_momo.Serialization.Buffer.{
  Bytes, Deserializer, write_uint, read_uint, write_bool, read_bool,
}
use emulator_momo.Serialization.Containers.{write_string, read_string}
use emulator_momo.Allocator.{Allocator}
use emulator_momo.Objects.{EventType, notification_event, synchronization_event, Event, Mutant}

-- `section`
pub record Section : Type 0 where
  pub name : List ℕ
  pub file_name : List ℕ
  pub maximum_size : ℕ
  pub section_page_protection : ℕ
  pub allocation_attributes : ℕ

-- `semaphore`
pub record Semaphore : Type 0 where
  pub ref_count : ℕ
  pub name : List ℕ
  pub current_count : ℕ
  pub max_count : ℕ

-- `port`
pub record Port : Type 0 where
  pub name : List ℕ
  pub view_base : ℕ

-- `registry_key`; a path is its text.
pub record RegistryKey : Type 0 where
  pub hive : List ℕ
  pub path : List ℕ

-- The number of an enumerator. Any other number that is read acts like that of `notification_event`.
abbrev pub event_code : EventType → ℕ
event_code notification_event = 0
event_code synchronization_event = 1

abbrev pub event_type : ℕ → EventType
event_type code = if code == 1 then synchronization_event else notification_event

module _ (debug : Bool) where
  unfoldable pub serialize_event : Event → Bytes → Bytes
  serialize_event e b₀ =
      let b₁ = write_bool debug e.signaled b₀ in
      let b₂ = write_uint debug 4 (event_code e.kind) b₁ in
      let b₃ = write_string debug 2 e.name b₂ in write_uint debug 4 e.ref_count b₃

  unfoldable pub deserialize_event : Deserializer → Result (Event × Deserializer)
  deserialize_event s = do
    signaled ← read_bool debug s
    kind ← read_uint debug 4 signaled.1
    name ← read_string debug 2 kind.1
    ref_count ← read_uint debug 4 name.1
    ok (
      record {
        ref_count = ref_count.0;
        signaled = signaled.0;
        kind = event_type kind.0;
        name = name.0;
      },
      ref_count.1,
    )

  unfoldable pub serialize_mutant : Mutant → Bytes → Bytes
  serialize_mutant m b₀ =
      let b₁ = write_uint debug 4 m.locked_count b₀ in
      let b₂ = write_uint debug 4 m.owning_thread_id b₁ in
      let b₃ = write_string debug 2 m.name b₂ in write_uint debug 4 m.ref_count b₃

  unfoldable pub deserialize_mutant : Deserializer → Result (Mutant × Deserializer)
  deserialize_mutant s = do
    locked_count ← read_uint debug 4 s
    owning_thread_id ← read_uint debug 4 locked_count.1
    name ← read_string debug 2 owning_thread_id.1
    ref_count ← read_uint debug 4 name.1
    ok (
      record {
        ref_count = ref_count.0;
        locked_count = locked_count.0;
        owning_thread_id = owning_thread_id.0;
        name = name.0;
      },
      ref_count.1,
    )

  unfoldable pub serialize_semaphore : Semaphore → Bytes → Bytes
  serialize_semaphore s b₀ =
      let b₁ = write_string debug 2 s.name b₀ in
      let b₂ = write_uint debug 4 s.current_count b₁ in
      let b₃ = write_uint debug 4 s.max_count b₂ in write_uint debug 4 s.ref_count b₃

  unfoldable pub deserialize_semaphore : Deserializer → Result (Semaphore × Deserializer)
  deserialize_semaphore s = do
    name ← read_string debug 2 s
    current_count ← read_uint debug 4 name.1
    max_count ← read_uint debug 4 current_count.1
    ref_count ← read_uint debug 4 max_count.1
    ok (
      record {
        name = name.0;
        current_count = current_count.0;
        max_count = max_count.0;
        ref_count = ref_count.0;
      },
      ref_count.1,
    )

  unfoldable pub serialize_section : Section → Bytes → Bytes
  serialize_section s b₀ =
      let b₁ = write_string debug 2 s.name b₀ in
      let b₂ = write_string debug 2 s.file_name b₁ in
      let b₃ = write_uint debug 8 s.maximum_size b₂ in
      let b₄ = write_uint debug 4 s.section_page_protection b₃ in
      write_uint debug 4 s.allocation_attributes b₄

  unfoldable pub deserialize_section : Deserializer → Result (Section × Deserializer)
  deserialize_section s = do
    name ← read_string debug 2 s
    file_name ← read_string debug 2 name.1
    maximum_size ← read_uint debug 8 file_name.1
    section_page_protection ← read_uint debug 4 maximum_size.1
    allocation_attributes ← read_uint debug 4 section_page_protection.1
    ok (
      record {
        name = name.0;
        file_name = file_name.0;
        maximum_size = maximum_size.0;
        section_page_protection = section_page_protection.0;
        allocation_attributes = allocation_attributes.0;
      },
      allocation_attributes.1,
    )

  unfoldable pub serialize_port : Port → Bytes → Bytes
  serialize_port p b₀ = let b₁ = write_string debug 2 p.name b₀ in write_uint debug 8 p.view_base b₁

  unfoldable pub deserialize_port : Deserializer → Result (Port × Deserializer)
  deserialize_port s = do
    name ← read_string debug 2 s
    view_base ← read_uint debug 8 name.1
    ok (record { name = name.0; view_base = view_base.0 }, view_base.1)

  unfoldable pub serialize_registry_key : RegistryKey → Bytes → Bytes
  serialize_registry_key r b₀ =
      let b₁ = write_string debug 2 r.hive b₀ in write_string debug 2 r.path b₁

  unfoldable pub deserialize_registry_key : Deserializer → Result (RegistryKey × Deserializer)
  deserialize_registry_key s = do
    hive ← read_string debug 2 s
    path ← read_string debug 2 hive.1
    ok (record { hive = hive.0; path = path.0 }, path.1)

  unfoldable pub serialize_allocator : Allocator → Bytes → Bytes
  serialize_allocator a b₀ =
      let b₁ = write_uint debug 8 a.address b₀ in
      let b₂ = write_uint debug 8 a.size b₁ in write_uint debug 8 a.active_address b₂

  unfoldable pub deserialize_allocator : Deserializer → Result (Allocator × Deserializer)
  deserialize_allocator s = do
    address ← read_uint debug 8 s
    size ← read_uint debug 8 address.1
    active_address ← read_uint debug 8 size.1
    ok (
      record { address = address.0; size = size.0; active_address = active_address.0 },
      active_address.1,
    )
