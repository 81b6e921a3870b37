-- ===== src/Kraken/Structs.antt =====
-- The structures of kraken.h. Related fields of `shared_ctrl_t` are grouped in records of their
-- own (usb_*, fault_log_*, trap_last_*, trace_log_*); a field keeps the rest of its name.
use Prim.Native.Nat.{ℕ}
use mathlib.Core.List.{List}

-- `kraken_staged_image_footer_t`
pub record Footer : Type 0 where
  pub magic : ℕ
  pub version : ℕ
  pub image_kind : ℕ
  pub flags : ℕ
  pub load_addr : ℕ
  pub entry_addr : ℕ
  pub payload_size : ℕ
  pub payload_crc32 : ℕ
  pub payload_crc32_inv : ℕ
  pub tail_magic : ℕ

-- `kraken_fault_record_t`
pub record FaultRecord : Type 0 where
  pub tag : ℕ
  pub code : ℕ
  pub arg0 : ℕ
  pub arg1 : ℕ

-- `kraken_trace_record_t`
pub record TraceRecord : Type 0 where
  pub source : ℕ
  pub code : ℕ
  pub arg0 : ℕ
  pub arg1 : ℕ

-- `kraken_persist_record_t`
pub record PersistRecord : Type 0 where
  pub seq : ℕ
  pub boot_count : ℕ
  pub kind : ℕ
  pub source : ℕ
  pub code : ℕ
  pub arg0 : ℕ
  pub arg1 : ℕ
  pub stage : ℕ

-- `kraken_riscv_identity_t`
pub record Identity : Type 0 where
  pub hartid : ℕ
  pub mvendorid : ℕ
  pub marchid : ℕ
  pub mimpid : ℕ
  pub misa : ℕ

-- `usb_state` to `usb_console_enabled`, and the two rings
pub record UsbCtrl : Type 0 where
  pub state : ℕ
  pub flags : ℕ
  pub rx_head : ℕ
  pub rx_tail : ℕ
  pub tx_head : ℕ
  pub tx_tail : ℕ
  pub last_error : ℕ
  pub console_enabled : ℕ
  pub rx_ring : List ℕ
  pub tx_ring : List ℕ

-- `fault_log_head` to `fault_last_arg1`, and `fault_log`
pub record FaultLog : Type 0 where
  pub head : ℕ
  pub count : ℕ
  pub last_tag : ℕ
  pub last_code : ℕ
  pub last_arg0 : ℕ
  pub last_arg1 : ℕ
  pub entries : List FaultRecord

-- `trap_count` to `trap_last_status`
pub record TrapInfo : Type 0 where
  pub count : ℕ
  pub last_source : ℕ
  pub last_cause : ℕ
  pub last_epc : ℕ
  pub last_tval : ℕ
  pub last_status : ℕ

-- `trace_log_head` to `trace_last_code`, and `trace_log`
pub record TraceLog : Type 0 where
  pub head : ℕ
  pub count : ℕ
  pub last_source : ℕ
  pub last_code : ℕ
  pub entries : List TraceRecord

-- `shared_ctrl_t`
pub record SharedCtrl : Type 0 where
  pub magic : ℕ
  pub version : ℕ
  pub system_stage : ℕ
  pub system_flags : ℕ
  pub reset_reason : ℕ
  pub boot_count : ℕ
  pub kernel_entry_addr : ℕ
  pub worker_entry_addr : ℕ
  pub kernel_heartbeat : ℕ
  pub worker_heartbeat : ℕ
  pub worker_state : ℕ
  pub worker_restart_count : ℕ
  pub kernel_pet_seq : ℕ
  pub watchdog_last_kernel_seq : ℕ
  pub watchdog_last_worker_seq : ℕ
  pub watchdog_pet_count : ℕ
  pub worker_cmd : ℕ
  pub worker_arg0 : ℕ
  pub worker_arg1 : ℕ
  pub worker_result : ℕ
  pub kernel_cmd_seq : ℕ
  pub worker_cmd_ack : ℕ
  pub worker_boot_ack : ℕ
  pub usb : UsbCtrl
  pub platform_caps : ℕ
  pub platform_errors : ℕ
  pub faults : FaultLog
  pub trap : TrapInfo
  pub boot_hartid : ℕ
  pub boot_dtb_addr : ℕ
  pub riscv_identity : List Identity
  pub traces : TraceLog

-- `kraken_persist_log_t`
pub record PersistLog : Type 0 where
  pub magic : ℕ
  pub version : ℕ
  pub write_head : ℕ
  pub record_count : ℕ
  pub next_seq : ℕ
  pub last_boot_count : ℕ
  pub last_reset_reason : ℕ
  pub last_stage : ℕ
  pub last_system_flags : ℕ
  pub last_trace_source : ℕ
  pub last_trace_code : ℕ
  pub last_fault_tag : ℕ
  pub last_fault_code : ℕ
  pub records : List PersistRecord

-- The two structures that live at fixed addresses of DDR: `shared_ctrl()` and
-- `persistent_log()`. kraken.h asserts that they do not overlap.
pub record Shared : Type 0 where
  pub ctl : SharedCtrl
  pub log : PersistLog
