-- ===== src/Boot.antt =====
-- bootloader/main.c, on the machine of the kernel.
pub mod Handoff
pub mod Logs
pub mod Chain
pub mod Tests
use sg2002_kraken.Base.{ℕ, not, List, [], ◌∷◌, ◌==◌, if◌then◌else◌, set_bits, u32}
use sg2002_kraken.Mmio.{Bus}
use sg2002_kraken.Kraken.Config.{kernel_load_addr, worker_load_addr}
use sg2002_kraken.Kraken.FaultSource
use sg2002_kraken.Kraken.Stage
use sg2002_kraken.Kraken.SysFlag
use sg2002_kraken.Kraken.TraceCode
use sg2002_kraken.Kraken.Options.{Options}
use sg2002_kraken.Kraken.Structs.{PersistLog, SharedCtrl, Shared}
use sg2002_kraken.Image.{sg2002_image_present}
use sg2002_kraken.Persist.{persist_valid}
use sg2002_kraken.Ctl.{
  ctl_set_stage, ctl_init_defaults, ctl_note_boot_abi, ctl_fault_log, ctl_trace_log,
  ctl_note_riscv_boot_identity,
}
use sg2002_kraken.UsbSerial.{Cdc, usb_serial_init}
use sg2002_kraken.Console.{Piece, text, word}
use sg2002_kraken.Platform.{
  blink_source, blink_detail, sg2002_user_led_blink, sg2002_user_led_show_persist_summary,
}
use sg2002_kraken.Kernel.{Machine, Run, running, stopped, on_shared, on_ctl, on_device, say}

abbrev pub kernel_missing_code : ℕ
kernel_missing_code = 0xb0070001

-- What `boot_panic` does to the shared structures.
pub note_boot_panic : (reason flags : ℕ) → Shared → Shared
note_boot_panic reason flags s =
    let logged = ctl_fault_log FaultSource.bootloader reason flags s.ctl.system_stage s in
    ctl_set_stage Stage.panic (record logged {
      ctl = record (logged.ctl) {
        reset_reason = reason;
        system_flags = set_bits logged.ctl.system_flags flags;
      };
    })

pub print_previous_boot_summary : PersistLog → List Piece
print_previous_boot_summary log =
    if not (persist_valid log)
    then []
    else if log.last_boot_count == 0
    then []
    else text "[boot] previous boot="
      ∷ word log.last_boot_count
      ∷ text " stage="
      ∷ word log.last_stage
      ∷ text " reason="
      ∷ word log.last_reset_reason
      ∷ text " flags="
      ∷ word log.last_system_flags
      ∷ text " src="
      ∷ word (blink_source log)
      ∷ text " code="
      ∷ word (blink_detail log)
      ∷ text "\n"
      ∷ []

pub add_flag : ℕ → SharedCtrl → SharedCtrl
add_flag flag ctl = record ctl { system_flags = set_bits ctl.system_flags flag }

module _ {bus : Bus} {cdc : Cdc} where
  -- `boot_panic`, up to the endless loop in which it ends.
  pub boot_panic : (reason flags : ℕ) → Machine bus cdc → Machine bus cdc
  unfolding note_boot_panic
  boot_panic reason flags m =
      say (text "[boot] panic\n" ∷ []) (on_shared (note_boot_panic reason flags) m)

  pub trace_boot : (code arg0 arg1 : ℕ) → Machine bus cdc → Machine bus cdc
  trace_boot code arg0 arg1 m = on_shared (ctl_trace_log FaultSource.bootloader code arg0 arg1) m

  -- `bootloader_main` up to the USB console.
  pub begin_boot : Options → (hartid dtb_addr : ℕ) → Machine bus cdc → Machine bus cdc
  unfolding print_previous_boot_summary add_flag trace_boot
  begin_boot o hartid dtb_addr m =
      let fresh = on_shared (ctl_init_defaults o) (on_device (sg2002_user_led_blink bus o 1) m) in
      let shown =
        on_device (sg2002_user_led_show_persist_summary bus o fresh.shared.log)
          (say (print_previous_boot_summary fresh.shared.log) fresh) in
      trace_boot TraceCode.boot_entry (u32 hartid) (u32 dtb_addr) (
        on_shared (ctl_set_stage Stage.bootloader) (
          on_ctl (add_flag SysFlag.bootloader_active) (
            on_ctl (ctl_note_riscv_boot_identity 0 (u32 hartid))
              (on_ctl (ctl_note_boot_abi (u32 hartid) dtb_addr) shown))))

  pub start_boot_console : Options → Machine bus cdc → Machine bus cdc
  start_boot_console o m =
      let (ctl', host') = usb_serial_init cdc m.shared.ctl m.host in
      if o.usb_dwc2_scaffold
      then record m { shared = record (m.shared) { ctl = ctl' }; host = host' }
      else m

  pub greet_boot : (hartid dtb_addr : ℕ) → Machine bus cdc → Machine bus cdc
  greet_boot hartid dtb_addr m =
      say
        (text "Kraken bootloader start\n"
          ∷ text "[boot] hart @ 0x"
          ∷ word (u32 hartid)
          ∷ text "\n"
          ∷ text "[boot] dtb @ 0x"
          ∷ word (u32 dtb_addr)
          ∷ text "\n"
          ∷ text "[boot] kernel @ 0x"
          ∷ word kernel_load_addr
          ∷ text "\n"
          ∷ text "[boot] worker @ 0x"
          ∷ word worker_load_addr
          ∷ text "\n"
          ∷ [])
        m

  -- `bootloader_main` where the kernel's image is there, up to the jump into it.
  pub hand_off : Machine bus cdc → Machine bus cdc
  unfolding add_flag trace_boot
  hand_off m =
      let checked =
        if not (sg2002_image_present m.mem worker_load_addr)
        then on_ctl (add_flag SysFlag.worker_image_missing) m
        else m in
      let staged = on_shared (ctl_set_stage Stage.kernel_entry) (
        trace_boot TraceCode.boot_images_ready checked.shared.ctl.system_flags kernel_load_addr
          checked) in
      say (text "[boot] handoff kernel\n" ∷ []) (
        trace_boot TraceCode.boot_handoff_kernel kernel_load_addr staged.shared.ctl.system_stage
          staged)

  -- The arguments of the jump are the hart and the tree that the page holds.
  pub jump_args : Machine bus cdc → ℕ × ℕ
  jump_args m = (m.shared.ctl.boot_hartid, m.shared.ctl.boot_dtb_addr)

  pub bootloader_main :
      Options → (hartid dtb_addr : ℕ) → Machine bus cdc → Run (Machine bus cdc) (Machine bus cdc)
  unfolding begin_boot start_boot_console greet_boot hand_off boot_panic
  bootloader_main o hartid dtb_addr m =
      let begun =
        greet_boot hartid dtb_addr (start_boot_console o (begin_boot o hartid dtb_addr m)) in
      if not (sg2002_image_present begun.mem kernel_load_addr)
      then stopped (boot_panic kernel_missing_code SysFlag.kernel_image_missing begun)
      else running (hand_off begun)
