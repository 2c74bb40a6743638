-- ===== src/Serialization.antt =====
-- src/emulator/serialization.hpp: the byte buffers that a snapshot is written to and read from.
pub mod Buffer
pub mod Bounds
pub mod Codec
pub mod Containers
pub mod Numbers
pub mod Sequences
pub mod Maps
