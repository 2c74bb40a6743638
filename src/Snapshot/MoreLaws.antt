-- ===== src/Snapshot/MoreLaws.antt =====
-- src/windows-emulator/process_context.hpp: more objects that come back.
use emulator_momo.Common.{◌<◌, ◌≡◌, Bool, length, u64_mod, ok}
use emulator_momo.Serialization.Buffer.{Bytes}
use emulator_momo.Serialization.Codec.{Serializable, RoundTrips, Prefix, reader, before, step, stop}
use emulator_momo.Serialization.Numbers.{uint-RoundTrips, byte_bound}
use emulator_momo.Serialization.Sequences.{Text, string-RoundTrips}
use emulator_momo.Allocator.{Allocator}
use emulator_momo.Snapshot.Objects.{
  Semaphore, Section, Port, RegistryKey, serialize_semaphore, deserialize_semaphore,
  serialize_section, deserialize_section, serialize_port, deserialize_port, serialize_registry_key,
  deserialize_registry_key, serialize_allocator, deserialize_allocator,
}

module _ (debug : Bool) where
  abbrev pub semaphore : Serializable Semaphore
  semaphore = record {
    serialize = serialize_semaphore debug;
    deserialize = deserialize_semaphore debug;
  }

  abbrev pub SemaphoreFits : Semaphore → Type 0
  SemaphoreFits s =
      Text debug 2 s.name
      × (s.current_count < byte_bound 4)
      × (s.max_count < byte_bound 4)
      × (s.ref_count < byte_bound 4)

  semaphore-reads :
      (s : Semaphore) (b whole : Bytes)
      → SemaphoreFits s
      → length whole < u64_mod
      → Prefix (serialize_semaphore debug s b) whole
      → deserialize_semaphore debug (reader whole (length b))
        ≡ ok (s, reader whole (length (serialize_semaphore debug s b)))
  unfolding serialize_semaphore deserialize_semaphore
  semaphore-reads s b whole h small f =
      (step (string-RoundTrips debug 2) small s.name h.0 _ (
        step (uint-RoundTrips debug 4) small s.current_count h.1 _ (
          step (uint-RoundTrips debug 4) small s.max_count h.2 _
            (step (uint-RoundTrips debug 4) small s.ref_count h.3 _ (stop s f))))).gives

  pub semaphore-RoundTrips : RoundTrips semaphore SemaphoreFits
  unfolding serialize_semaphore
  semaphore-RoundTrips = record {
    extends = λ s b. before (string-RoundTrips debug 2) s.name _ _ (
        before (uint-RoundTrips debug 4) s.current_count _ _ (
          before (uint-RoundTrips debug 4) s.max_count _ _
            ((uint-RoundTrips debug 4).extends s.ref_count _)));
    reads = semaphore-reads;
  }

  abbrev pub section : Serializable Section
  section = record { serialize = serialize_section debug; deserialize = deserialize_section debug }

  abbrev pub SectionFits : Section → Type 0
  SectionFits s =
      Text debug 2 s.name
      × Text debug 2 s.file_name
      × (s.maximum_size < byte_bound 8)
      × (s.section_page_protection < byte_bound 4)
      × (s.allocation_attributes < byte_bound 4)

  section-reads :
      (s : Section) (b whole : Bytes)
      → SectionFits s
      → length whole < u64_mod
      → Prefix (serialize_section debug s b) whole
      → deserialize_section debug (reader whole (length b))
        ≡ ok (s, reader whole (length (serialize_section debug s b)))
  unfolding serialize_section deserialize_section
  section-reads s b whole h small f =
      (step (string-RoundTrips debug 2) small s.name h.0 _ (
        step (string-RoundTrips debug 2) small s.file_name h.1 _ (
          step (uint-RoundTrips debug 8) small s.maximum_size h.2 _ (
            step (uint-RoundTrips debug 4) small s.section_page_protection h.3 _ (
              step (uint-RoundTrips debug 4) small s.allocation_attributes h.4 _
                (stop s f)))))).gives

  pub section-RoundTrips : RoundTrips section SectionFits
  unfolding serialize_section
  section-RoundTrips = record {
    extends = λ s b. before (string-RoundTrips debug 2) s.name _ _ (
        before (string-RoundTrips debug 2) s.file_name _ _ (
          before (uint-RoundTrips debug 8) s.maximum_size _ _ (
            before (uint-RoundTrips debug 4) s.section_page_protection _ _
              ((uint-RoundTrips debug 4).extends s.allocation_attributes _))));
    reads = section-reads;
  }

  abbrev pub port : Serializable Port
  port = record { serialize = serialize_port debug; deserialize = deserialize_port debug }

  abbrev pub PortFits : Port → Type 0
  PortFits p = Text debug 2 p.name × (p.view_base < byte_bound 8)

  port-reads :
      (p : Port) (b whole : Bytes)
      → PortFits p
      → length whole < u64_mod
      → Prefix (serialize_port debug p b) whole
      → deserialize_port debug (reader whole (length b))
        ≡ ok (p, reader whole (length (serialize_port debug p b)))
  unfolding serialize_port deserialize_port
  port-reads p b whole h small f =
      (step (string-RoundTrips debug 2) small p.name h.0 _
        (step (uint-RoundTrips debug 8) small p.view_base h.1 _ (stop p f))).gives

  pub port-RoundTrips : RoundTrips port PortFits
  unfolding serialize_port
  port-RoundTrips = record {
    extends = λ p b.
        before (string-RoundTrips debug 2) p.name _ _
          ((uint-RoundTrips debug 8).extends p.view_base _);
    reads = port-reads;
  }

  abbrev pub registry_key : Serializable RegistryKey
  registry_key = record {
    serialize = serialize_registry_key debug;
    deserialize = deserialize_registry_key debug;
  }

  abbrev pub RegistryKeyFits : RegistryKey → Type 0
  RegistryKeyFits r = Text debug 2 r.hive × Text debug 2 r.path

  registry_key-reads :
      (r : RegistryKey) (b whole : Bytes)
      → RegistryKeyFits r
      → length whole < u64_mod
      → Prefix (serialize_registry_key debug r b) whole
      → deserialize_registry_key debug (reader whole (length b))
        ≡ ok (r, reader whole (length (serialize_registry_key debug r b)))
  unfolding serialize_registry_key deserialize_registry_key
  registry_key-reads r b whole h small f =
      (step (string-RoundTrips debug 2) small r.hive h.0 _
        (step (string-RoundTrips debug 2) small r.path h.1 _ (stop r f))).gives

  pub registry_key-RoundTrips : RoundTrips registry_key RegistryKeyFits
  unfolding serialize_registry_key
  registry_key-RoundTrips = record {
    extends = λ r b.
        before (string-RoundTrips debug 2) r.hive _ _
          ((string-RoundTrips debug 2).extends r.path _);
    reads = registry_key-reads;
  }

  abbrev pub allocator : Serializable Allocator
  allocator = record {
    serialize = serialize_allocator debug;
    deserialize = deserialize_allocator debug;
  }

  abbrev pub AllocatorFits : Allocator → Type 0
  AllocatorFits a =
      (a.address < byte_bound 8) × (a.size < byte_bound 8) × (a.active_address < byte_bound 8)

  allocator-reads :
      (a : Allocator) (b whole : Bytes)
      → AllocatorFits a
      → length whole < u64_mod
      → Prefix (serialize_allocator debug a b) whole
      → deserialize_allocator debug (reader whole (length b))
        ≡ ok (a, reader whole (length (serialize_allocator debug a b)))
  unfolding serialize_allocator deserialize_allocator
  allocator-reads a b whole h small f =
      (step (uint-RoundTrips debug 8) small a.address h.0 _ (
        step (uint-RoundTrips debug 8) small a.size h.1 _
          (step (uint-RoundTrips debug 8) small a.active_address h.2 _ (stop a f)))).gives

  pub allocator-RoundTrips : RoundTrips allocator AllocatorFits
  unfolding serialize_allocator
  allocator-RoundTrips = record {
    extends = λ a b. before (uint-RoundTrips debug 8) a.address _ _ (
        before (uint-RoundTrips debug 8) a.size _ _
          ((uint-RoundTrips debug 8).extends a.active_address _));
    reads = allocator-reads;
  }
