-- ===== src/Kraken/SysFlag.antt =====
-- The bits of `system_flags`. (`enum system_flags` of kraken.h)
use Prim.Native.Nat.{ℕ}

abbrev pub none : ℕ
none = 0

abbrev pub bootloader_active : ℕ
bootloader_active = 1

abbrev pub kernel_active : ℕ
kernel_active = 2

abbrev pub worker_image_missing : ℕ
worker_image_missing = 4

abbrev pub kernel_image_missing : ℕ
kernel_image_missing = 8

abbrev pub worker_stale : ℕ
worker_stale = 0x10

abbrev pub worker_restarting : ℕ
worker_restarting = 0x20

abbrev pub usb_fault : ℕ
usb_fault = 0x40

abbrev pub riscv_trap : ℕ
riscv_trap = 0x80

abbrev pub worker_release_fail : ℕ
worker_release_fail = 0x100

abbrev pub watchdog_timeout : ℕ
watchdog_timeout = 0x80000000
