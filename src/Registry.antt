-- ===== src/Registry.antt =====
-- src/windows-emulator/registry (from the repository's root): hive files and the registry.
pub mod File
pub mod Blocks
pub mod Hive
pub mod Listing
pub mod Cached
pub mod Parsing
pub mod Stopped
pub mod Refines
pub mod Walk
pub mod Questions
pub mod Manager
pub mod Lookup
pub mod Sessions
