-- ===== src/Snapshot/MemoryState/Restore.antt =====
-- src/emulator/memory_manager.cpp: the memory state that is read is the one that was written.
use emulator_momo.Common.{
  ℕ, ◌<◌, ◌≡◌, refl, subst, Bool, true, false, List, [], ◌∷◌, ◌++◌, length, if◌then◌else◌, u64_mod,
  ok, ◌>>=◌,
}
use emulator_momo.Memory.Region.{CommittedRegion, CommittedRegionMap}
use emulator_momo.Memory.Reserved.{ReservedRegion, ReservedRegionMap, map_memory}
use emulator_momo.Serialization.Buffer.{Bytes, write, read_data}
use emulator_momo.Serialization.Codec.{
  RoundTrips, Prefix, Prefix_refl, Prefix_trans, reader, before, step, stop,
}
use emulator_momo.Serialization.Containers.{write_map}
use emulator_momo.Serialization.Numbers.{
  uint-RoundTrips, bool-RoundTrips, byte_bound, write-extends, read_data-write,
}
use emulator_momo.Serialization.Maps.{Ordered, map-RoundTrips}
use emulator_momo.Snapshot.MemoryState.{
  MemoryCall, backend, write_memory, serialize_committed, deserialize_committed, committed,
  serialize_reserved, deserialize_reserved, reserved, write_regions, write_contents,
  serialize_memory_state, read_regions, read_contents, unmap_all, deserialize_memory_state,
}

module _ (debug : Bool) where
  abbrev pub CommittedFits : CommittedRegion → Type 0
  CommittedFits r = (r.length < byte_bound 8) × (r.permissions < byte_bound 1)

  committed-reads :
      (r : CommittedRegion) (b whole : Bytes)
      → CommittedFits r
      → length whole < u64_mod
      → Prefix (serialize_committed debug r b) whole
      → deserialize_committed debug (reader whole (length b))
        ≡ ok (r, reader whole (length (serialize_committed debug r b)))
  unfolding serialize_committed deserialize_committed
  committed-reads r b whole h small f =
      (step (uint-RoundTrips debug 8) small r.length h.0 _
        (step (uint-RoundTrips debug 1) small r.permissions h.1 _ (stop r f))).gives

  pub committed-RoundTrips : RoundTrips (committed debug) CommittedFits
  unfolding serialize_committed
  committed-RoundTrips = record {
    extends = λ r b.
        before (uint-RoundTrips debug 8) r.length _ _
          ((uint-RoundTrips debug 1).extends r.permissions _);
    reads = committed-reads;
  }

  abbrev pub ReservedFits : ReservedRegion → Type 0
  ReservedFits r = (r.length < byte_bound 8) × Ordered debug 8 committed-RoundTrips r.committed

  reserved-reads :
      (r : ReservedRegion) (b whole : Bytes)
      → ReservedFits r
      → length whole < u64_mod
      → Prefix (serialize_reserved debug r b) whole
      → deserialize_reserved debug (reader whole (length b))
        ≡ ok (r, reader whole (length (serialize_reserved debug r b)))
  unfolding serialize_reserved deserialize_reserved
  reserved-reads r b whole h small f =
      (step (bool-RoundTrips debug) small r.is_mmio tt _ (
        step (uint-RoundTrips debug 8) small r.length h.0 _ (
          step (map-RoundTrips debug 8 committed-RoundTrips) small r.committed h.1 _
            (stop r f)))).gives

  pub reserved-RoundTrips : RoundTrips (reserved debug) ReservedFits
  unfolding serialize_reserved
  reserved-RoundTrips = record {
    extends = λ r b. before (bool-RoundTrips debug) r.is_mmio _ _ (
        before (uint-RoundTrips debug 8) r.length _ _
          ((map-RoundTrips debug 8 committed-RoundTrips).extends r.committed _));
    reads = reserved-reads;
  }

  -- The regions without those of MMIO.
  pub without_mmio : ReservedRegionMap → ReservedRegionMap
  without_mmio [] = []
  without_mmio ((first, r) ∷ m) = if r.is_mmio then without_mmio m else (first, r) ∷ without_mmio m

  module _ (read_memory : ℕ → ℕ → Bytes) where
    -- The calls that map committed regions and fill them as they were.
    pub restore_regions : CommittedRegionMap → List MemoryCall
    restore_regions [] = []
    restore_regions ((first, r) ∷ m) =
        backend (map_memory first r.length r.permissions)
        ∷ write_memory first (read_memory first r.length)
        ∷ restore_regions m

    pub restore_all : ReservedRegionMap → List MemoryCall
    restore_all [] = []
    restore_all ((first, r) ∷ m) =
        if r.is_mmio then restore_all m else restore_regions r.committed ++ restore_all m

  -- Reading `n` bytes of memory gives `n` bytes.
  module _ (read_memory : ℕ → ℕ → Bytes) (exact : (a n : ℕ) → length (read_memory a n) ≡ n) where
    regions-extends :
        (m : CommittedRegionMap) (b : Bytes) → Prefix b (write_regions debug read_memory m b)
    unfolding write_regions
    regions-extends [] b = Prefix_refl b
    regions-extends ((first, r) ∷ m) b =
        let b₁ = write debug (read_memory first r.length) b in
        Prefix_trans b b₁ _ (write-extends debug (read_memory first r.length) b)
          (regions-extends m b₁)

    regions-reads :
        (m : CommittedRegionMap) (b whole : Bytes)
        → length whole < u64_mod
        → Prefix (write_regions debug read_memory m b) whole
        → read_regions debug m (reader whole (length b))
          ≡ ok (
            restore_regions read_memory m,
            reader whole (length (write_regions debug read_memory m b)),
          )
    unfolding write_regions read_regions restore_regions
    regions-reads [] b whole small f = refl
    regions-reads ((first, r) ∷ m) b whole small f =
        let bytes = read_memory first r.length in
        let b₁ = write debug bytes b in
        let f₁ = Prefix_trans b₁ _ whole (regions-extends m b₁) f in
        let got =
          subst
            (λ n.
              read_data debug n (reader whole (length b)) ≡ ok (bytes, reader whole (length b₁)))
            (exact first r.length) (read_data-write debug bytes b whole small f₁) in
        rw (got, regions-reads m b₁ whole small f) refl

    contents-extends :
        (m : ReservedRegionMap) (b : Bytes) → Prefix b (write_contents debug read_memory m b)
    unfolding write_contents
    contents-extends [] b = Prefix_refl b
    contents-extends ((first, r) ∷ m) b =
        elim r.is_mmio
          as (λ x. Prefix b (
            write_contents debug read_memory m
              (if x then b else write_regions debug read_memory r.committed b))) [
                | true ↦ contents-extends m b
                | false ↦
                    let b₁ = write_regions debug read_memory r.committed b in
                    Prefix_trans b b₁ _ (regions-extends r.committed b) (contents-extends m b₁)
              ]

    abbrev ContentsRead : ReservedRegionMap → Bytes → Bytes → Type 0
    ContentsRead m whole b =
        Prefix (write_contents debug read_memory m b) whole
        → read_contents debug m (reader whole (length b))
          ≡ ok (
            (without_mmio m, restore_all read_memory m),
            reader whole (length (write_contents debug read_memory m b)),
          )

    -- The first reserved region, by whether it is of MMIO.
    first-reads :
        (first : ℕ) (r : ReservedRegion) (m : ReservedRegionMap) (b whole : Bytes) (mmio : Bool)
        → length whole < u64_mod
        → ((b' : Bytes) → ContentsRead m whole b')
        → let b' = if mmio then b else write_regions debug read_memory r.committed b in
          Prefix (write_contents debug read_memory m b') whole
          → (if mmio
              then read_contents debug m (reader whole (length b))
              else (read_regions debug r.committed (reader whole (length b)) >>= λ d.
                  read_contents debug m d.1 >>= λ q. ok (((first, r) ∷ q.0.0, d.0 ++ q.0.1), q.1)))
            ≡ ok (
              (
                if mmio then without_mmio m else (first, r) ∷ without_mmio m,
                if mmio
                    then restore_all read_memory m
                    else restore_regions read_memory r.committed ++ restore_all read_memory m,
              ),
              reader whole (length (write_contents debug read_memory m b')),
            )
    first-reads first r m b whole true small rest f = rest b f
    first-reads first r m b whole false small rest f =
        let b₁ = write_regions debug read_memory r.committed b in
        let f₁ = Prefix_trans b₁ _ whole (contents-extends m b₁) f in
        rw (regions-reads r.committed b whole small f₁, rest b₁ f) refl

    contents-reads :
        (m : ReservedRegionMap) (b whole : Bytes) → length whole < u64_mod → ContentsRead m whole b
    unfolding write_contents read_contents without_mmio restore_all
    contents-reads [] b whole small f = refl
    contents-reads ((first, r) ∷ m) b whole small f =
        first-reads first r m b whole r.is_mmio small (λ b'. contents-reads m b' whole small) f

    -- Where the regions fit their widths and are in order, reading a state from where it was written
    -- ends normally. A snapshot gives the regions and makes no call. Otherwise all that was mapped is
    -- unmapped, the regions are those that were written without the MMIO regions, and each committed
    -- region is mapped with its permission and filled with what it held.
    pub deserialize_memory_state-serialize_memory_state :
        (m old : ReservedRegionMap) (is_snapshot : Bool) (b whole : Bytes)
        → Ordered debug 8 reserved-RoundTrips m
        → length whole < u64_mod
        → Prefix (serialize_memory_state debug read_memory m is_snapshot b) whole
        → deserialize_memory_state debug old is_snapshot (reader whole (length b))
          ≡ ok (
            if is_snapshot
                then (m, [])
                else (without_mmio m, unmap_all old ++ restore_all read_memory m),
            reader whole (length (serialize_memory_state debug read_memory m is_snapshot b)),
          )
    unfolding serialize_memory_state deserialize_memory_state
    deserialize_memory_state-serialize_memory_state m old true b whole h small f =
        rw ((map-RoundTrips debug 8 reserved-RoundTrips).reads m b whole h small f) refl
    deserialize_memory_state-serialize_memory_state m old false b whole h small f =
        let b₁ = write_map debug 8 (reserved debug) m b in
        let f₁ = Prefix_trans b₁ _ whole (contents-extends m b₁) f in
        rw
          (
            (map-RoundTrips debug 8 reserved-RoundTrips).reads m b whole h small f₁,
            contents-reads m b₁ whole small f,
          )
          refl
