-- ===== src/Kraken/ReleaseStatus.antt =====
-- The results of releasing the worker core. (`enum sg2002_worker_release_status` of kraken.h)
use Prim.Native.Nat.{ℕ}

abbrev pub ok : ℕ
ok = 0

abbrev pub bootaddr_lo_mismatch : ℕ
bootaddr_lo_mismatch = 1

abbrev pub bootaddr_hi_mismatch : ℕ
bootaddr_hi_mismatch = 2

abbrev pub enable_latch_failed : ℕ
enable_latch_failed = 3

abbrev pub reset_hook_failed : ℕ
reset_hook_failed = 4
