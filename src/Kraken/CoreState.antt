-- ===== src/Kraken/CoreState.antt =====
-- The states of the worker core, `worker_state`. (`enum core_state` of kraken.h)
use Prim.Native.Nat.{ℕ}

abbrev pub offline : ℕ
offline = 0

abbrev pub booting : ℕ
booting = 1

abbrev pub idle : ℕ
idle = 2

abbrev pub running : ℕ
running = 3

abbrev pub fault : ℕ
fault = 4
