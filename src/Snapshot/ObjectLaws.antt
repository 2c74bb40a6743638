-- ===== src/Snapshot/ObjectLaws.antt =====
-- src/windows-emulator/process_context.hpp: the objects that handles name come back.
use emulator_momo.Common.{◌<◌, ◌≡◌, refl, ap, ◌∙◌, Bool, length, u64_mod, ok, arith}
use emulator_momo.Serialization.Buffer.{Bytes, write_uint, write_bool}
use emulator_momo.Serialization.Codec.{Serializable, RoundTrips, Prefix, reader, before, step, stop}
use emulator_momo.Serialization.Containers.{write_string}
use emulator_momo.Serialization.Numbers.{uint-RoundTrips, bool-RoundTrips, byte_bound}
use emulator_momo.Serialization.Sequences.{Text, string-RoundTrips}
use emulator_momo.Objects.{EventType, notification_event, synchronization_event, Event, Mutant}
use emulator_momo.Snapshot.Objects.{
  serialize_event, deserialize_event, serialize_mutant, deserialize_mutant, event_code, event_type,
}

module _ (debug : Bool) where
  abbrev pub event : Serializable Event
  event = record { serialize = serialize_event debug; deserialize = deserialize_event debug }

  abbrev pub EventFits : Event → Type 0
  EventFits e = Text debug 2 e.name × (e.ref_count < byte_bound 4)

  event_code-lt : (k : EventType) → event_code k < byte_bound 4
  event_code-lt notification_event = omega arith
  event_code-lt synchronization_event = omega arith

  event_type-event_code : (k : EventType) → event_type (event_code k) ≡ k
  event_type-event_code notification_event = refl
  event_type-event_code synchronization_event = refl

  event-extends : (e : Event) (b : Bytes) → Prefix b (serialize_event debug e b)
  unfolding serialize_event
  event-extends e b₀ =
      let b₁ = write_bool debug e.signaled b₀ in
      let b₂ = write_uint debug 4 (event_code e.kind) b₁ in
      let b₃ = write_string debug 2 e.name b₂ in
      let b₄ = write_uint debug 4 e.ref_count b₃ in
      before (bool-RoundTrips debug) e.signaled b₀ b₄ (
        before (uint-RoundTrips debug 4) (event_code e.kind) b₁ b₄ (
          before (string-RoundTrips debug 2) e.name b₂ b₄
            ((uint-RoundTrips debug 4).extends e.ref_count b₃)))

  -- An event whose name and reference count fit comes back from where it was written, in any
  -- buffer of less than 2 ^ 64 bytes, and reading it stops where it ends.
  pub deserialize_event-serialize_event :
      (e : Event) (b whole : Bytes)
      → EventFits e
      → length whole < u64_mod
      → Prefix (serialize_event debug e b) whole
      → deserialize_event debug (reader whole (length b))
        ≡ ok (e, reader whole (length (serialize_event debug e b)))
  unfolding serialize_event deserialize_event
  deserialize_event-serialize_event e b whole p small f =
      let same = event_type-event_code e.kind in
      let e' : Event = record e { kind = event_type (event_code e.kind) } in
      (step (bool-RoundTrips debug) small e.signaled tt _ (
        step (uint-RoundTrips debug 4) small (event_code e.kind) (event_code-lt e.kind) _ (
          step (string-RoundTrips debug 2) small e.name p.0 _
            (step (uint-RoundTrips debug 4) small e.ref_count p.1 _ (stop e' f))))).gives
      ∙ ap (λ k. ok (record e { kind = k }, reader whole (length (serialize_event debug e b)))) same

  pub event-RoundTrips : RoundTrips event EventFits
  event-RoundTrips = record { extends = event-extends; reads = deserialize_event-serialize_event }

  abbrev pub mutant : Serializable Mutant
  mutant = record { serialize = serialize_mutant debug; deserialize = deserialize_mutant debug }

  abbrev pub MutantFits : Mutant → Type 0
  MutantFits m =
      (m.locked_count < byte_bound 4)
      × (m.owning_thread_id < byte_bound 4)
      × Text debug 2 m.name
      × (m.ref_count < byte_bound 4)

  mutant-reads :
      (m : Mutant) (b whole : Bytes)
      → MutantFits m
      → length whole < u64_mod
      → Prefix (serialize_mutant debug m b) whole
      → deserialize_mutant debug (reader whole (length b))
        ≡ ok (m, reader whole (length (serialize_mutant debug m b)))
  unfolding serialize_mutant deserialize_mutant
  mutant-reads m b whole p small f =
      let number = uint-RoundTrips debug 4 in
      (step number small m.locked_count p.0 _ (
        step number small m.owning_thread_id p.1 _ (
          step (string-RoundTrips debug 2) small m.name p.2 _
            (step number small m.ref_count p.3 _ (stop m f))))).gives

  pub mutant-RoundTrips : RoundTrips mutant MutantFits
  unfolding serialize_mutant
  mutant-RoundTrips = record {
    extends = λ m b.
        let number = uint-RoundTrips debug 4 in
        before number m.locked_count _ _ (
          before number m.owning_thread_id _ _
            (before (string-RoundTrips debug 2) m.name _ _ (number.extends m.ref_count _)));
    reads = mutant-reads;
  }
