-- ===== src/Ctl/Zero.antt =====
-- The control page after `sg2002_memset(ctl, 0, sizeof(*ctl))`.
use sg2002_kraken.Base.{replicate}
use sg2002_kraken.Kraken.Config.{fault_log_size, trace_log_size, usb_serial_ring_size}
use sg2002_kraken.Kraken.Structs.{
  FaultRecord, TraceRecord, Identity, UsbCtrl, FaultLog, TrapInfo, TraceLog, SharedCtrl,
}

abbrev pub zero_fault : FaultRecord
zero_fault = record { tag = 0; code = 0; arg0 = 0; arg1 = 0 }

abbrev pub zero_trace : TraceRecord
zero_trace = record { source = 0; code = 0; arg0 = 0; arg1 = 0 }

abbrev pub zero_identity : Identity
zero_identity = record { hartid = 0; mvendorid = 0; marchid = 0; mimpid = 0; misa = 0 }

abbrev pub zero_usb : UsbCtrl
zero_usb = record {
  state = 0;
  flags = 0;
  rx_head = 0;
  rx_tail = 0;
  tx_head = 0;
  tx_tail = 0;
  last_error = 0;
  console_enabled = 0;
  rx_ring = replicate usb_serial_ring_size 0;
  tx_ring = replicate usb_serial_ring_size 0;
}

abbrev pub zero_faults : FaultLog
zero_faults = record {
  head = 0;
  count = 0;
  last_tag = 0;
  last_code = 0;
  last_arg0 = 0;
  last_arg1 = 0;
  entries = replicate fault_log_size zero_fault;
}

abbrev pub zero_traces : TraceLog
zero_traces = record {
  head = 0;
  count = 0;
  last_source = 0;
  last_code = 0;
  entries = replicate trace_log_size zero_trace;
}

abbrev pub zero_trap : TrapInfo
zero_trap = record {
  count = 0;
  last_source = 0;
  last_cause = 0;
  last_epc = 0;
  last_tval = 0;
  last_status = 0;
}

abbrev pub zero_ctl : SharedCtrl
zero_ctl = record {
  magic = 0;
  version = 0;
  system_stage = 0;
  system_flags = 0;
  reset_reason = 0;
  boot_count = 0;
  kernel_entry_addr = 0;
  worker_entry_addr = 0;
  kernel_heartbeat = 0;
  worker_heartbeat = 0;
  worker_state = 0;
  worker_restart_count = 0;
  kernel_pet_seq = 0;
  watchdog_last_kernel_seq = 0;
  watchdog_last_worker_seq = 0;
  watchdog_pet_count = 0;
  worker_cmd = 0;
  worker_arg0 = 0;
  worker_arg1 = 0;
  worker_result = 0;
  kernel_cmd_seq = 0;
  worker_cmd_ack = 0;
  worker_boot_ack = 0;
  usb = zero_usb;
  platform_caps = 0;
  platform_errors = 0;
  faults = zero_faults;
  trap = zero_trap;
  boot_hartid = 0;
  boot_dtb_addr = 0;
  riscv_identity = replicate 3 zero_identity;
  traces = zero_traces;
}
