-- ===== src/Boot/Logs.antt =====
-- bootloader/main.c: the logs stay well-formed.
use sg2002_kraken.Base.{ℕ, refl, sym, not, subst, u32}
use sg2002_kraken.Mmio.{Bus}
use sg2002_kraken.Kraken.Config.{kernel_load_addr, worker_load_addr}
use sg2002_kraken.Kraken.FaultSource
use sg2002_kraken.Kraken.Stage
use sg2002_kraken.Kraken.SysFlag
use sg2002_kraken.Kraken.TraceCode
use sg2002_kraken.Kraken.Options.{Options}
use sg2002_kraken.Image.{sg2002_image_present}
use sg2002_kraken.Persist.Ring.{IsPage}
use sg2002_kraken.UsbSerial.{Cdc}
use sg2002_kraken.Ctl.{ctl_init_defaults, ctl_note_boot_abi, ctl_note_riscv_boot_identity}
use sg2002_kraken.Ctl.Boot.{ctl_init_defaults_lem}
use sg2002_kraken.Ctl.Logs.{IsFaultLog, IsTraceLog, ctl_fault_log-IsShared, ctl_trace_log-IsShared}
use sg2002_kraken.Ctl.Progress.{ctl_set_stage_lem}
use sg2002_kraken.Kernel.{Machine, on_shared, on_device}
use sg2002_kraken.Kernel.Invariant.{
  if_both, HasLogs, usb_serial_init-KeepsRings, on_shared-HasLogs, on_ctl-HasLogs,
  on_device-HasLogs, say-HasLogs, stage-HasLogs,
}
use sg2002_kraken.Platform.{sg2002_user_led_blink, sg2002_user_led_show_persist_summary}
use sg2002_kraken.Boot.{
  print_previous_boot_summary, note_boot_panic, add_flag, boot_panic, trace_boot, begin_boot,
  start_boot_console, greet_boot, hand_off,
}

module _ {bus : Bus} {cdc : Cdc} where
  trace_boot-HasLogs :
      (code arg0 arg1 : ℕ) (m : Machine bus cdc) → HasLogs m → HasLogs (trace_boot code arg0 arg1 m)
  unfolding trace_boot
  trace_boot-HasLogs code arg0 arg1 m h =
      on_shared-HasLogs _ m (λ s g. ctl_trace_log-IsShared _ _ _ _ g) h

  fresh-HasLogs :
      (o : Options) (m : Machine bus cdc)
      → IsPage (m.shared.log)
      → HasLogs (on_shared (ctl_init_defaults o) m)
  unfolding on_shared
  fresh-HasLogs o m page = record { logs = (ctl_init_defaults_lem o (m.shared) page).4 }

  pub begin_boot-HasLogs :
      (o : Options) (hart dtb : ℕ) (m : Machine bus cdc)
      → IsPage (m.shared.log)
      → HasLogs (begin_boot o hart dtb m)
  unfolding begin_boot add_flag ctl_note_boot_abi ctl_note_riscv_boot_identity
  begin_boot-HasLogs o hart dtb m page =
      let fresh = on_shared (ctl_init_defaults o) (on_device (sg2002_user_led_blink bus o 1) m) in
      let shown =
        on_device-HasLogs (sg2002_user_led_show_persist_summary bus o fresh.shared.log) _ (
          say-HasLogs (print_previous_boot_summary (fresh.shared.log)) fresh (
            fresh-HasLogs o (on_device (sg2002_user_led_blink bus o 1) m)
              (unfold on_device in page))) in
      trace_boot-HasLogs TraceCode.boot_entry (u32 hart) (u32 dtb) _ (
        stage-HasLogs Stage.bootloader _ (
          on_ctl-HasLogs (λ c. add_flag SysFlag.bootloader_active c) _ (λ c. (refl, refl))
            (on_ctl-HasLogs (λ c. ctl_note_riscv_boot_identity 0 (u32 hart) c) _ (λ c. (refl, refl))
              (on_ctl-HasLogs (λ c. ctl_note_boot_abi (u32 hart) dtb c) _ (λ c. (refl, refl))
                shown))))

  pub start_boot_console-HasLogs :
      (o : Options) (m : Machine bus cdc) → HasLogs m → HasLogs (start_boot_console o m)
  unfolding start_boot_console
  start_boot_console-HasLogs o m h =
      let same = usb_serial_init-KeepsRings cdc (m.shared.ctl) (m.host) in
      if_both HasLogs (o.usb_dwc2_scaffold)
        (record {
          logs = record {
            faults = subst IsFaultLog (sym same.0) h.logs.faults;
            traces = subst IsTraceLog (sym same.1) h.logs.traces;
            page = h.logs.page;
          };
        })
        h

  pub greet_boot-HasLogs :
      (hart dtb : ℕ) (m : Machine bus cdc) → HasLogs m → HasLogs (greet_boot hart dtb m)
  unfolding greet_boot
  greet_boot-HasLogs hart dtb m h = say-HasLogs _ m h

  pub hand_off-HasLogs : (m : Machine bus cdc) → HasLogs m → HasLogs (hand_off m)
  unfolding hand_off add_flag
  hand_off-HasLogs m h =
      let checked =
        if_both HasLogs (not (sg2002_image_present m.mem worker_load_addr))
          (on_ctl-HasLogs (λ c. add_flag SysFlag.worker_image_missing c) m (λ c. (refl, refl)) h)
          h in
      say-HasLogs _ _ (
        trace_boot-HasLogs TraceCode.boot_handoff_kernel kernel_load_addr _ _ (
          stage-HasLogs Stage.kernel_entry _
            (trace_boot-HasLogs TraceCode.boot_images_ready _ kernel_load_addr _ checked)))

  pub boot_panic-HasLogs :
      (reason flags : ℕ) (m : Machine bus cdc) → HasLogs m → HasLogs (boot_panic reason flags m)
  unfolding boot_panic note_boot_panic
  boot_panic-HasLogs reason flags m h = say-HasLogs _ _ (
      on_shared-HasLogs (note_boot_panic reason flags) m
        (λ s g.
          let logged =
            ctl_fault_log-IsShared FaultSource.bootloader reason flags s.ctl.system_stage g in
          (ctl_set_stage_lem Stage.panic
            (record { faults = logged.faults; traces = logged.traces; page = logged.page })).2)
        h)
