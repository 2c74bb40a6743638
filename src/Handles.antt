-- ===== src/Handles.antt =====
-- src/windows-emulator/handles.hpp: the bit fields of a handle, and the stores of objects.
pub mod Value
pub mod Store
