-- ===== src/Memory.antt =====
-- src/emulator (from the repository root): the address arithmetic and the memory manager.
pub mod Address
pub mod Align
pub mod Spans
pub mod SpansErase
pub mod SpansInsert
pub mod Region
pub mod Reserved
pub mod Protection
pub mod Manager
pub mod Query
