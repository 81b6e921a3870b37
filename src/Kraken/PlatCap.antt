-- ===== src/Kraken/PlatCap.antt =====
-- The bits of `platform_caps`. (`enum kraken_platform_caps` of kraken.h)
use Prim.Native.Nat.{ℕ}

abbrev pub riscv_c906 : ℕ
riscv_c906 = 1

abbrev pub worker_release : ℕ
worker_release = 2

abbrev pub worker_reset_hook : ℕ
worker_reset_hook = 4

abbrev pub dcache_ops : ℕ
dcache_ops = 8

abbrev pub usb_dwc2_scaffold : ℕ
usb_dwc2_scaffold = 0x10

abbrev pub fault_log : ℕ
fault_log = 0x20

abbrev pub worker_staging : ℕ
worker_staging = 0x40

abbrev pub riscv_traps : ℕ
riscv_traps = 0x80

abbrev pub riscv_identity : ℕ
riscv_identity = 0x100
