-- ===== src/Kraken/FaultSource.antt =====
-- Who logs a fault or a trace entry. (`enum kraken_fault_source` of kraken.h)
use Prim.Native.Nat.{ℕ}

abbrev pub bootloader : ℕ
bootloader = 1

abbrev pub kernel : ℕ
kernel = 2

abbrev pub worker : ℕ
worker = 3

abbrev pub watchdog : ℕ
watchdog = 4
