-- ===== src/Snapshot/MemoryState.antt =====
-- src/emulator/memory_manager.cpp: `serialize_memory_state` and `deserialize_memory_state`.
pub mod Restore
use emulator_momo.Common.{ℕ, Bool, List, [], ◌∷◌, ◌++◌, if◌then◌else◌, Result, ok, ◌>>=◌}
use emulator_momo.Memory.Region.{CommittedRegion, CommittedRegionMap}
use emulator_momo.Memory.Reserved.{
  ReservedRegion, ReservedRegionMap, BackendCall, map_memory, unmap_memory,
}
use emulator_momo.Serialization.Buffer.{
  Bytes, Deserializer, write, read_data, write_uint, read_uint, write_bool, read_bool,
}
use emulator_momo.Serialization.Codec.{Serializable}
use emulator_momo.Serialization.Containers.{write_map, read_map}

-- What reading a state does to the memory of the emulator: a call of the backend, or bytes that are
-- written at an address.
pub data MemoryCall : Type 0 where
  backend : BackendCall → MemoryCall
  write_memory : ℕ → Bytes → MemoryCall

unfoldable pub unmap_regions : CommittedRegionMap → List MemoryCall
unmap_regions [] = []
unmap_regions ((first, r) ∷ m) = backend (unmap_memory first r.length) ∷ unmap_regions m

unfoldable pub unmap_all : ReservedRegionMap → List MemoryCall
unfolding unmap_regions
unmap_all [] = []
unmap_all ((first, r) ∷ m) = unmap_regions r.committed ++ unmap_all m

module _ (debug : Bool) where
  unfoldable pub serialize_committed : CommittedRegion → Bytes → Bytes
  serialize_committed r b = write_uint debug 1 r.permissions (write_uint debug 8 r.length b)

  unfoldable pub deserialize_committed : Deserializer → Result (CommittedRegion × Deserializer)
  deserialize_committed s = do
    length ← read_uint debug 8 s
    permissions ← read_uint debug 1 length.1
    ok (record { length = length.0; permissions = permissions.0 }, permissions.1)

  abbrev pub committed : Serializable CommittedRegion
  committed = record { serialize = serialize_committed; deserialize = deserialize_committed }

  unfoldable pub serialize_reserved : ReservedRegion → Bytes → Bytes
  serialize_reserved r b₀ =
      let b₁ = write_bool debug r.is_mmio b₀ in
      let b₂ = write_uint debug 8 r.length b₁ in write_map debug 8 committed r.committed b₂

  unfoldable pub deserialize_reserved : Deserializer → Result (ReservedRegion × Deserializer)
  deserialize_reserved s = do
    is_mmio ← read_bool debug s
    length ← read_uint debug 8 is_mmio.1
    regions ← read_map debug 8 committed length.1
    ok (record { length = length.0; committed = regions.0; is_mmio = is_mmio.0 }, regions.1)

  abbrev pub reserved : Serializable ReservedRegion
  reserved = record { serialize = serialize_reserved; deserialize = deserialize_reserved }

  -- `read_memory address size` is what the memory of the emulator holds.
  module _ (read_memory : ℕ → ℕ → Bytes) where
    unfoldable pub write_regions : CommittedRegionMap → Bytes → Bytes
    write_regions [] b = b
    write_regions ((first, r) ∷ m) b = write_regions m (write debug (read_memory first r.length) b)

    -- MMIO regions have no contents to write.
    unfoldable pub write_contents : ReservedRegionMap → Bytes → Bytes
    unfolding write_regions
    write_contents [] b = b
    write_contents ((first, r) ∷ m) b =
        write_contents m (if r.is_mmio then b else write_regions r.committed b)

    unfoldable pub serialize_memory_state : ReservedRegionMap → Bool → Bytes → Bytes
    unfolding write_contents
    serialize_memory_state m is_snapshot b =
        let b' = write_map debug 8 reserved m b in if is_snapshot then b' else write_contents m b'

  unfoldable pub read_regions :
      CommittedRegionMap → Deserializer → Result (List MemoryCall × Deserializer)
  read_regions [] s = ok ([], s)
  read_regions ((first, r) ∷ m) s = read_data debug r.length s >>= λ d. read_regions m d.1 >>= λ q.
      ok (backend (map_memory first r.length r.permissions) ∷ write_memory first d.0 ∷ q.0, q.1)

  -- The loop over the reserved regions that were read, which drops the MMIO regions.
  unfoldable pub read_contents :
      ReservedRegionMap
      → Deserializer
      → Result ((ReservedRegionMap × List MemoryCall) × Deserializer)
  unfolding read_regions
  read_contents [] s = ok (([], []), s)
  read_contents ((first, r) ∷ m) s =
      let kept = λ (s' : Deserializer).
        (read_regions r.committed s' >>= λ d.
        read_contents m d.1 >>= λ q. ok (((first, r) ∷ q.0.0, d.0 ++ q.0.1), q.1)) in
      let rest = read_contents m s in if r.is_mmio then rest else kept s

  -- The regions before, the flag; the regions and the calls after.
  unfoldable pub deserialize_memory_state :
      ReservedRegionMap
      → Bool
      → Deserializer
      → Result ((ReservedRegionMap × List MemoryCall) × Deserializer)
  unfolding read_contents unmap_all
  deserialize_memory_state old is_snapshot s =
      let unmapped = if is_snapshot then [] else unmap_all old in
      let contents = λ (m : ReservedRegionMap) (s' : Deserializer).
        (read_contents m s' >>= λ q. ok ((q.0.0, unmapped ++ q.0.1), q.1)) in
      read_map debug 8 reserved s >>= λ m.
      if is_snapshot then ok ((m.0, unmapped), m.1) else contents m.0 m.1
