-- ===== src/Kernel/Main.antt =====
-- kernel/main.c: `kernel_main`.
use sg2002_kraken.Base.{ℕ, true, ◌&&◌, [], ◌∷◌, ◌==◌, if◌then◌else◌, set_bits, clear_bits, u32}
use sg2002_kraken.Mmio.{Bus}
use sg2002_kraken.Kraken.Config.{worker_load_addr}
use sg2002_kraken.Kraken.Stage
use sg2002_kraken.Kraken.SysFlag
use sg2002_kraken.Kraken.TraceCode
use sg2002_kraken.Kraken.UsbState
use sg2002_kraken.Kraken.Options.{Options}
use sg2002_kraken.Kraken.Structs.{SharedCtrl, Shared}
use sg2002_kraken.Ctl.{
  ctl_valid, ctl_set_stage, ctl_init_defaults, ctl_note_boot_abi, ctl_note_riscv_boot_identity,
}
use sg2002_kraken.UsbSerial.{Cdc, usb_serial_init}
use sg2002_kraken.Console.{text, word}
use sg2002_kraken.Platform.{sg2002_user_led_set, sg2002_user_led_blink}
use sg2002_kraken.Kernel.{
  Env, Machine, Run, running, and_then, on_shared, on_ctl, on_device, trace, say,
}
use sg2002_kraken.Kernel.Restart.{boot_worker, wait_for_worker_ack, ensure_watchdog_started}
use sg2002_kraken.Kernel.Supervisor.{no_watch, Supervisor, supervise}

unfoldable pub set_kernel_active : SharedCtrl → SharedCtrl
set_kernel_active ctl = record ctl {
  system_flags =
      set_bits (clear_bits ctl.system_flags SysFlag.bootloader_active) SysFlag.kernel_active;
}

module _ {bus : Bus} {cdc : Cdc} where
  -- `kernel_main` up to its first look at the page.
  unfoldable pub greet : Options → (hartid dtb_addr : ℕ) → Machine bus cdc → Machine bus cdc
  greet o hartid dtb_addr m = on_device (sg2002_user_led_blink bus o 1) (
      say
        (text "Kraken kernel start\n"
          ∷ text "[kernel] hart @ 0x"
          ∷ word (u32 hartid)
          ∷ text "\n"
          ∷ text "[kernel] dtb @ 0x"
          ∷ word (u32 dtb_addr)
          ∷ text "\n"
          ∷ [])
        (on_device (sg2002_user_led_blink bus o 2) m))

  -- A page that is not valid is filled in.
  unfoldable pub usable : Options → Machine bus cdc → Machine bus cdc
  usable o m = if ctl_valid m.shared.ctl then m else on_shared (ctl_init_defaults o) m

  -- From there to the USB console, each step with its blink before it.
  unfoldable pub note_entry : Options → (hartid dtb_addr : ℕ) → Machine bus cdc → Machine bus cdc
  note_entry o hartid dtb_addr m =
      let noted =
        on_ctl (ctl_note_boot_abi (u32 hartid) dtb_addr)
          (on_device (sg2002_user_led_blink bus o 1) (usable o m)) in
      let identified =
        on_ctl (ctl_note_riscv_boot_identity 1 (u32 hartid))
          (on_device (sg2002_user_led_blink bus o 1) noted) in
      let traced =
        trace TraceCode.kernel_entry (u32 hartid) (u32 dtb_addr)
          (on_device (sg2002_user_led_blink bus o 1) identified) in
      on_device (sg2002_user_led_blink bus o 4) (
        on_shared (ctl_set_stage Stage.kernel_entry)
          (on_ctl set_kernel_active (on_device (sg2002_user_led_blink bus o 1) traced)))

  unfoldable pub start_console : Options → Machine bus cdc → Machine bus cdc
  start_console o m =
      let (ctl', host') = usb_serial_init cdc m.shared.ctl m.host in
      if o.usb_dwc2_scaffold && m.shared.ctl.usb.state == UsbState.off
      then record m { shared = record (m.shared) { ctl = ctl' }; host = host' }
      else m

  -- `kernel_main` up to the boot of the worker.
  unfoldable pub kernel_entry : Options → (hartid dtb_addr : ℕ) → Machine bus cdc → Machine bus cdc
  kernel_entry o hartid dtb_addr m =
      start_console o (note_entry o hartid dtb_addr (greet o hartid dtb_addr m))

  -- `kernel_main` behind the acknowledgement, up to its loop.
  unfoldable pub kernel_online : Options → Machine bus cdc → Machine bus cdc
  unfolding ensure_watchdog_started say
  kernel_online o m =
      let ctl = m.shared.ctl in
      let started =
        ensure_watchdog_started
          (trace TraceCode.kernel_ack_ok ctl.worker_state ctl.worker_boot_ack m) in
      let staged = on_shared (ctl_set_stage Stage.os_running) (
        trace TraceCode.kernel_watchdog_start started.shared.ctl.system_stage
          started.shared.ctl.kernel_pet_seq started) in
      say (text "[kernel] supervisor loop\n" ∷ []) (
        on_device (sg2002_user_led_set bus o true) (
          trace TraceCode.kernel_supervisor_loop staged.shared.ctl.worker_state
            staged.shared.ctl.system_flags staged))

  -- `kernel_main` from the boot of the worker to its loop.
  unfoldable pub finish_boot :
      Options → Env → Machine bus cdc → Run (Machine bus cdc) (Machine bus cdc)
  finish_boot o env booted =
      and_then
        (wait_for_worker_ack env (
          trace TraceCode.kernel_wait_ack booted.shared.ctl.worker_state
            booted.shared.ctl.kernel_cmd_seq booted))
        λ online. running (kernel_online o online)

  -- `kernel_main` up to its loop.
  unfoldable pub kernel_boot :
      Options
      → Env
      → (hartid dtb_addr : ℕ) → Machine bus cdc
      → Run (Machine bus cdc) (Machine bus cdc)
  kernel_boot o env hartid dtb_addr m =
      let entered = kernel_entry o hartid dtb_addr m in
      and_then
        (boot_worker o (
          trace TraceCode.kernel_boot_worker worker_load_addr entered.shared.ctl.system_flags
            entered))
        (finish_boot o env)

  -- `kernel_main` with `n` rounds of its loop.
  unfoldable pub kernel_main :
      Options
      → Env
      → (ℕ → (Shared → Shared) × Env)
      → (hartid dtb_addr n : ℕ) → Machine bus cdc
      → Run (Machine bus cdc) (Supervisor bus cdc)
  unfolding kernel_boot supervise and_then
  kernel_main o boot_env env hartid dtb_addr n m =
      and_then (kernel_boot o boot_env hartid dtb_addr m) λ m'. supervise o env n 0 (no_watch, m')
