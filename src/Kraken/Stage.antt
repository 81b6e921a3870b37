-- ===== src/Kraken/Stage.antt =====
-- The boot stages, `system_stage`. (`enum system_stage` of kraken.h)
use Prim.Native.Nat.{ℕ}

abbrev pub cold_reset : ℕ
cold_reset = 0

abbrev pub bootloader : ℕ
bootloader = 1

abbrev pub watchdog_boot : ℕ
watchdog_boot = 2

abbrev pub kernel_entry : ℕ
kernel_entry = 3

abbrev pub worker_prep : ℕ
worker_prep = 4

abbrev pub worker_release : ℕ
worker_release = 5

abbrev pub worker_wait_ack : ℕ
worker_wait_ack = 6

abbrev pub os_running : ℕ
os_running = 7

abbrev pub panic : ℕ
panic = 8
