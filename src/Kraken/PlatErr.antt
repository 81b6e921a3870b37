-- ===== src/Kraken/PlatErr.antt =====
-- The bits of `platform_errors`. (`enum kraken_platform_errors` of kraken.h)
use Prim.Native.Nat.{ℕ}

abbrev pub none : ℕ
none = 0

abbrev pub worker_staging_invalid : ℕ
worker_staging_invalid = 1

abbrev pub usb_init_failed : ℕ
usb_init_failed = 2

abbrev pub worker_ack_timeout : ℕ
worker_ack_timeout = 4

abbrev pub worker_stale : ℕ
worker_stale = 8

abbrev pub worker_release_failed : ℕ
worker_release_failed = 0x10
