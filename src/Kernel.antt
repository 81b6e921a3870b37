-- ===== src/Kernel.antt =====
-- kernel/main.c: the state that the kernel works on, and what its parts share. `bus` is the device
-- registers, `cdc` the device stack of the USB console. Fences and delays are left out.
pub mod Report
pub mod Editor
pub mod Restart
pub mod Commands
pub mod Supervisor
pub mod Main
pub mod Ack
pub mod Alarm
pub mod Stale
pub mod Revive
pub mod Silent
pub mod Restarts
pub mod Offer
pub mod Booted
pub mod Handshake
pub mod Trapped
pub mod Invariant
pub mod Tests
mod CoreTests
use sg2002_kraken.Base.{
  ℕ, zero, suc, ◌+◌, Bool, true, ◌&&◌, ◌||◌, not, Option, none, some, List, [], ◌∷◌, ltb, leb, ◌==◌,
  ◌!=◌, if◌then◌else◌, bit_and, set_bits, clear_bits, u32,
}
use sg2002_kraken.Mmio.{Bus}
use sg2002_kraken.Kraken.Config.{
  magic, worker_load_addr, worker_shared_top, worker_staging_addr, worker_image_max_bytes,
  worker_ack_spins, worker_stale_spins, fw8051_ddr_addr,
}
use sg2002_kraken.Kraken.Cmd
use sg2002_kraken.Kraken.CoreState
use sg2002_kraken.Kraken.FaultSource
use sg2002_kraken.Kraken.ImageKind
use sg2002_kraken.Kraken.PlatErr
use sg2002_kraken.Kraken.ReleaseStatus
use sg2002_kraken.Kraken.Stage
use sg2002_kraken.Kraken.SysFlag
use sg2002_kraken.Kraken.TraceCode
use sg2002_kraken.Kraken.UsbState
use sg2002_kraken.Kraken.Options.{Options}
use sg2002_kraken.Kraken.Structs.{Footer, SharedCtrl, Shared}
use sg2002_kraken.Memory.{Mem}
use sg2002_kraken.Image.{
  footer_size, sg2002_image_present, sg2002_validate_staged_image, sg2002_copy_image,
}
use sg2002_kraken.Persist.{ctl_persist_clear}
use sg2002_kraken.Ctl.{
  ctl_valid, ctl_set_stage, ctl_init_defaults, ctl_next_cmd_seq, ctl_note_boot_abi, ctl_fault_log,
  ctl_trace_log, ctl_set_platform_error, ctl_clear_platform_error, ctl_note_riscv_boot_identity,
}
use sg2002_kraken.UsbSerial.{Cdc, usb_serial_init, usb_serial_poll, usb_serial_read}
use sg2002_kraken.Console.{Piece, text, word, print}
use sg2002_kraken.Release.{sg2002_release_worker_core}
use sg2002_kraken.Platform.{
  sg2002_user_led_set, sg2002_user_led_toggle, sg2002_user_led_blink, mailbox_send_worker,
  mailbox_send_8051, sg2002_boot_8051, sg2002_request_watchdog_reset,
}
use sg2002_kraken.Kernel.Editor.{Line}
use sg2002_kraken.Kernel.Report.{
  print_status, print_cpu, print_trap, print_faults, print_trace, print_persist,
}

-- The writes of the other cores before round `i` of a loop.
abbrev pub Env : Type 0
Env = ℕ → Shared → Shared

-- What the kernel works on: the shared structures, memory, the registers, the USB device, what the
-- UART has sent, and the line that is being typed.
pub record Machine (bus : Bus) (cdc : Cdc) : Type 0 where
  pub shared : Shared
  pub mem : Mem
  pub device : bus.Device
  pub host : cdc.Device
  pub uart : List ℕ
  pub line : Line

-- A part of the program returns, or ends in one of the endless loops of a panic.
pub data Run (M A : Type 0) : Type 0 where
  running : A → Run M A
  stopped : M → Run M A

pub and_then : {M A B : Type 0} → Run M A → (A → Run M B) → Run M B
and_then (running a) next = next a
and_then (stopped m) next = stopped m

-- The fault codes of the kernel.
abbrev pub image_missing_code : ℕ
image_missing_code = 0xc0de0001

abbrev pub ack_timeout_code : ℕ
ack_timeout_code = 0xc0de0002

abbrev pub worker_fault_code : ℕ
worker_fault_code = 0xc0de0003

abbrev pub worker_stale_code : ℕ
worker_stale_code = 0xc0de0004

abbrev pub release_failed_code : ℕ
release_failed_code = 0xc0de0005

-- `send_worker_cmd`
pub send_worker_cmd : (cmd arg0 arg1 : ℕ) → SharedCtrl → SharedCtrl
send_worker_cmd cmd arg0 arg1 ctl =
    ctl_next_cmd_seq (record ctl { worker_cmd = cmd; worker_arg0 = arg0; worker_arg1 = arg1 })

-- What the worker shows when it is up.
pub is_online : SharedCtrl → Bool
is_online ctl =
    ctl.worker_boot_ack == magic
    && (ctl.worker_state == CoreState.idle || ctl.worker_state == CoreState.running)

-- What the kernel does to the page when it sees that.
pub note_online : SharedCtrl → SharedCtrl
note_online ctl =
    let cleared = ctl_clear_platform_error PlatErr.worker_ack_timeout ctl in
    record cleared {
      system_flags =
          clear_bits cleared.system_flags (set_bits SysFlag.worker_restarting SysFlag.worker_stale);
    }

-- What `kernel_panic` does to the shared structures.
pub note_panic : (reason flags : ℕ) → Shared → Shared
note_panic reason flags s =
    let logged = ctl_fault_log FaultSource.kernel reason flags s.ctl.system_stage s in
    ctl_set_stage Stage.panic (record logged {
      ctl = record (logged.ctl) {
        reset_reason = reason;
        system_flags = set_bits logged.ctl.system_flags flags;
      };
    })

-- What `restart_worker` does to the shared structures before it boots the worker.
pub note_restart : ℕ → Shared → Shared
note_restart reason s =
    let traced =
      ctl_trace_log FaultSource.kernel TraceCode.kernel_restart_worker reason
        (u32 (s.ctl.worker_restart_count + 1)) s in
    let logged =
      ctl_fault_log FaultSource.kernel reason (u32 (traced.ctl.worker_restart_count + 1))
        traced.ctl.worker_heartbeat traced in
    record logged {
      ctl = record (logged.ctl) {
        worker_restart_count = u32 (logged.ctl.worker_restart_count + 1);
        reset_reason = reason;
        system_flags = set_bits logged.ctl.system_flags SysFlag.worker_restarting;
      };
    }

module _ {bus : Bus} {cdc : Cdc} where
  unfoldable pub on_shared : (Shared → Shared) → Machine bus cdc → Machine bus cdc
  on_shared f m = record m { shared = f m.shared }

  unfoldable pub on_ctl : (SharedCtrl → SharedCtrl) → Machine bus cdc → Machine bus cdc
  on_ctl f m = record m { shared = record (m.shared) { ctl = f m.shared.ctl } }

  unfoldable pub on_device : (bus.Device → bus.Device) → Machine bus cdc → Machine bus cdc
  on_device f m = record m { device = f m.device }

  unfoldable pub trace : (code arg0 arg1 : ℕ) → Machine bus cdc → Machine bus cdc
  trace code arg0 arg1 m = on_shared (ctl_trace_log FaultSource.kernel code arg0 arg1) m

  -- Console output.
  unfoldable pub say : List Piece → Machine bus cdc → Machine bus cdc
  say ps m =
      let out = print cdc ps m.host (record { uart = m.uart; usb = m.shared.ctl.usb }) in
      record m {
        shared = record (m.shared) { ctl = record (m.shared.ctl) { usb = out.usb } };
        uart = out.uart;
      }

  -- `kernel_panic`, up to the endless loop in which it ends.
  pub kernel_panic : (reason flags : ℕ) → Machine bus cdc → Machine bus cdc
  unfolding note_panic say
  kernel_panic reason flags m =
      let said = say (text "[kernel] panic\n" ∷ []) (on_shared (note_panic reason flags) m) in
      if bit_and flags SysFlag.watchdog_timeout != 0
      then on_device (sg2002_request_watchdog_reset bus) said
      else said
