-- ===== src/Syscalls/Threads/Alert.antt =====
-- src/windows-emulator/syscalls.cpp and windows_emulator.cpp: a thread that waits for an alert.
use emulator_momo.Common.{ℕ, ◌≡◌, false, Dict, All, ◌==◌}
use emulator_momo.Objects.{Thread}

-- The entries have neither this index nor this identifier.
abbrev pub Others : ℕ → ℕ → Dict Thread → Type 0
Others k id = All (λ e. ((e.0 == k) ≡ false) × ((e.1.id == id) ≡ false))
