-- ===== src/Kraken/TraceCode.antt =====
-- The codes of trace entries. (`enum kraken_trace_code` of kraken.h)
use Prim.Native.Nat.{ℕ}

abbrev pub boot_entry : ℕ
boot_entry = 0x1000

abbrev pub boot_images_ready : ℕ
boot_images_ready = 0x1001

abbrev pub boot_handoff_kernel : ℕ
boot_handoff_kernel = 0x1002

abbrev pub kernel_entry : ℕ
kernel_entry = 0x2000

abbrev pub kernel_boot_worker : ℕ
kernel_boot_worker = 0x2001

abbrev pub kernel_wait_ack : ℕ
kernel_wait_ack = 0x2002

abbrev pub kernel_ack_ok : ℕ
kernel_ack_ok = 0x2003

abbrev pub kernel_watchdog_start : ℕ
kernel_watchdog_start = 0x2004

abbrev pub kernel_supervisor_loop : ℕ
kernel_supervisor_loop = 0x2005

abbrev pub kernel_worker_fault : ℕ
kernel_worker_fault = 0x2006

abbrev pub kernel_worker_stale : ℕ
kernel_worker_stale = 0x2007

abbrev pub kernel_restart_worker : ℕ
kernel_restart_worker = 0x2008

abbrev pub kernel_heartbeat : ℕ
kernel_heartbeat = 0x2009

abbrev pub worker_entry : ℕ
worker_entry = 0x3000

abbrev pub worker_cmd_boot : ℕ
worker_cmd_boot = 0x3001

abbrev pub worker_cmd_run_job : ℕ
worker_cmd_run_job = 0x3002

abbrev pub worker_cmd_panic : ℕ
worker_cmd_panic = 0x3003

abbrev pub worker_cmd_stop : ℕ
worker_cmd_stop = 0x3004

abbrev pub trap_panic : ℕ
trap_panic = 0x4000
