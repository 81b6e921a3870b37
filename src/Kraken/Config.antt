-- ===== src/Kraken/Config.antt =====
-- The constants of kraken.h, in the default configuration.
use Prim.Native.Nat.{ℕ, ◌*◌, ◌/◌}

abbrev pub magic : ℕ
magic = 0x4b52414b

abbrev pub version : ℕ
version = 6

abbrev pub persist_magic : ℕ
persist_magic = 0x4b504c47

abbrev pub persist_version : ℕ
persist_version = 1

abbrev pub staged_image_magic : ℕ
staged_image_magic = 0x4b535447

abbrev pub staged_image_tail : ℕ
staged_image_tail = 0x4b454e44

abbrev pub staged_image_version : ℕ
staged_image_version = 1

abbrev pub boot_cycles_per_ms : ℕ
boot_cycles_per_ms = 850000

abbrev pub worker_ack_timeout_ms : ℕ
worker_ack_timeout_ms = 50

abbrev pub worker_ack_spins : ℕ
worker_ack_spins = worker_ack_timeout_ms * boot_cycles_per_ms / 64

abbrev pub worker_stale_timeout_ms : ℕ
worker_stale_timeout_ms = 100

abbrev pub worker_stale_spins : ℕ
worker_stale_spins = worker_stale_timeout_ms * boot_cycles_per_ms / 1000

abbrev pub worker_image_probe_words : ℕ
worker_image_probe_words = 8

abbrev pub fault_log_size : ℕ
fault_log_size = 16

abbrev pub trace_log_size : ℕ
trace_log_size = 32

abbrev pub persist_log_capacity : ℕ
persist_log_capacity = 256

abbrev pub usb_serial_ring_size : ℕ
usb_serial_ring_size = 512

abbrev pub usb_serial_proto_acm : ℕ
usb_serial_proto_acm = 1

abbrev pub worker_image_max_bytes : ℕ
worker_image_max_bytes = 128 * 1024

abbrev pub kernel_load_addr : ℕ
kernel_load_addr = 0x80280000

abbrev pub shared_ctrl_addr : ℕ
shared_ctrl_addr = 0x80300000

abbrev pub worker_load_addr : ℕ
worker_load_addr = 0x80380000

abbrev pub worker_shared_top : ℕ
worker_shared_top = 0x803bffff

abbrev pub fw8051_ddr_addr : ℕ
fw8051_ddr_addr = 0x83f80000

abbrev pub worker_staging_addr : ℕ
worker_staging_addr = 0x80400000
