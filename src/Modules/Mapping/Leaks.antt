-- ===== src/Modules/Mapping/Leaks.antt =====
-- src/windows-emulator/module/module_mapping.cpp: what an exception leaves.
