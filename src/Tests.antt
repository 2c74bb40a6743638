-- ===== src/Tests.antt =====
-- Runs of the models, and the theorems at concrete inputs.
mod Memory
mod Handles
mod Objects
mod Hive
mod Registry
mod Modules
mod Mapping
mod Snapshot
mod Allocator
mod Runs
mod Syscalls
mod Dispatcher
mod Scheduler
mod Fuzzing
