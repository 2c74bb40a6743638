-- ===== src/Snapshot.antt =====
-- The state of the emulator as it is written to a snapshot and read back.
pub mod Objects
pub mod ObjectLaws
pub mod MoreLaws
pub mod Threads
pub mod ThreadLaws
pub mod MemoryState
