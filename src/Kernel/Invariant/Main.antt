-- ===== src/Kernel/Invariant/Main.antt =====
-- The logs through `kernel_main` of kernel/main.c.
use sg2002_kraken.Base.{ℕ, ◌≡◌, true, false, u32, inl, inr, ◌⊎◌, refl, subst, sym, ◌&&◌, ◌==◌}
use sg2002_kraken.Mmio.{Bus}
use sg2002_kraken.Kraken.Stage
use sg2002_kraken.Kraken.UsbState
use sg2002_kraken.Kraken.TraceCode
use sg2002_kraken.Platform.{sg2002_user_led_blink, sg2002_user_led_set}
use sg2002_kraken.Kraken.Config.{worker_load_addr}
use sg2002_kraken.Kraken.Options.{Options}
use sg2002_kraken.Kraken.Structs.{Shared}
use sg2002_kraken.UsbSerial.{Cdc}
use sg2002_kraken.Persist.Ring.{IsPage}
use sg2002_kraken.Ctl.{ctl_valid, ctl_note_boot_abi, ctl_note_riscv_boot_identity}
use sg2002_kraken.Ctl.Boot.{ctl_init_defaults_lem}
use sg2002_kraken.Ctl.Logs.{IsShared, IsFaultLog, IsTraceLog}
use sg2002_kraken.Kernel.{Env, Machine, on_shared, on_device, say}
use sg2002_kraken.Kernel.Supervisor.{no_watch, supervise}
use sg2002_kraken.Kernel.Main.{
  greet, usable, set_kernel_active, note_entry, start_console, kernel_entry, kernel_online,
  finish_boot, kernel_boot, kernel_main,
}
use sg2002_kraken.Kernel.Invariant.{
  if_both, HasLogs, KeepsLogs, EndsWithLogs, usb_serial_init-KeepsRings, on_ctl-HasLogs,
  on_device-HasLogs, say-HasLogs, trace-HasLogs, stage-HasLogs, then-EndsWithLogs,
}
use sg2002_kraken.Kernel.Invariant.Restart.{
  boot_worker-HasLogs, wait_for_worker_ack-HasLogs, ensure_watchdog_started-HasLogs,
}
use sg2002_kraken.Kernel.Invariant.Rounds.{RoundWithLogs, then-RoundWithLogs, supervise-HasLogs}

module _ {bus : Bus} {cdc : Cdc} where
  -- What memory holds before the first boot is not a page, or is a page with well-formed logs.
  abbrev pub Bootable : Machine bus cdc → Type 0
  Bootable m = IsPage (m.shared.log) × ((ctl_valid (m.shared.ctl) ≡ false) ⊎ IsShared (m.shared))

  pub blink-HasLogs :
      (o : Options) (n : ℕ) (m : Machine bus cdc)
      → HasLogs m
      → HasLogs (on_device (sg2002_user_led_blink bus o n) m)
  blink-HasLogs o n m h = on_device-HasLogs _ m h

  pub greet-Bootable :
      (o : Options) (hartid dtb_addr : ℕ) (m : Machine bus cdc)
      → Bootable m
      → Bootable (greet o hartid dtb_addr m)
  unfolding greet say on_device ctl_valid
  greet-Bootable o hartid dtb_addr m (page, inl e) = (page, inl e)
  greet-Bootable o hartid dtb_addr m (page, inr h) =
      (page, inr (record { faults = h.faults; traces = h.traces; page = h.page }))

  pub usable-HasLogs : (o : Options) (m : Machine bus cdc) → Bootable m → HasLogs (usable o m)
  unfolding usable on_shared
  usable-HasLogs o m (page, inl e) =
      rw e (record { logs = (ctl_init_defaults_lem o (m.shared) page).4 })
  usable-HasLogs o m (page, inr h) =
      if_both HasLogs (ctl_valid (m.shared.ctl)) (record { logs = h })
        (record { logs = (ctl_init_defaults_lem o (m.shared) page).4 })

  pub note_entry-HasLogs :
      (o : Options) (hartid dtb_addr : ℕ) (m : Machine bus cdc)
      → Bootable m
      → HasLogs (note_entry o hartid dtb_addr m)
  unfolding note_entry ctl_note_boot_abi ctl_note_riscv_boot_identity set_kernel_active
  note_entry-HasLogs o hartid dtb_addr m h =
      let identified =
        on_ctl-HasLogs (λ c. ctl_note_riscv_boot_identity 1 (u32 hartid) c) _ (λ c. (refl, refl))
          (blink-HasLogs o 1 _ (
            on_ctl-HasLogs (λ c. ctl_note_boot_abi (u32 hartid) dtb_addr c) _ (λ c. (refl, refl))
              (blink-HasLogs o 1 _ (usable-HasLogs o m h)))) in
      let traced =
        trace-HasLogs TraceCode.kernel_entry (u32 hartid) (u32 dtb_addr) _
          (blink-HasLogs o 1 _ identified) in
      blink-HasLogs o 4 _ (
        stage-HasLogs Stage.kernel_entry _
          (on_ctl-HasLogs set_kernel_active _ (λ c. (refl, refl)) (blink-HasLogs o 1 _ traced)))

  pub start_console-HasLogs :
      (o : Options) (m : Machine bus cdc) → HasLogs m → HasLogs (start_console o m)
  unfolding start_console
  start_console-HasLogs o m h =
      let same = usb_serial_init-KeepsRings cdc (m.shared.ctl) (m.host) in
      if_both HasLogs (o.usb_dwc2_scaffold && m.shared.ctl.usb.state == UsbState.off)
        (record {
          logs = record {
            faults = subst IsFaultLog (sym same.0) h.logs.faults;
            traces = subst IsTraceLog (sym same.1) h.logs.traces;
            page = h.logs.page;
          };
        })
        h

  pub kernel_online-HasLogs :
      (o : Options) (m : Machine bus cdc) → HasLogs m → HasLogs (kernel_online o m)
  unfolding kernel_online
  kernel_online-HasLogs o m h =
      let started =
        ensure_watchdog_started-HasLogs _ (trace-HasLogs TraceCode.kernel_ack_ok _ _ m h) in
      let staged =
        stage-HasLogs Stage.os_running _
          (trace-HasLogs TraceCode.kernel_watchdog_start _ _ _ started) in
      say-HasLogs _ _ (
        on_device-HasLogs (sg2002_user_led_set bus o true) _
          (trace-HasLogs TraceCode.kernel_supervisor_loop _ _ _ staged))

  pub finish_boot-HasLogs :
      (o : Options) (env : Env)
      → ((i : ℕ) → KeepsLogs (env i))
      → (m : Machine bus cdc) → HasLogs m
      → EndsWithLogs (finish_boot o env m)
  unfolding finish_boot
  finish_boot-HasLogs o env keeps m h =
      then-EndsWithLogs _ _
        (wait_for_worker_ack-HasLogs env keeps _ (trace-HasLogs TraceCode.kernel_wait_ack _ _ m h))
        (λ online g. kernel_online-HasLogs o online g)

  pub kernel_boot-HasLogs :
      (o : Options) (env : Env)
      → ((i : ℕ) → KeepsLogs (env i))
      → (hartid dtb_addr : ℕ) (m : Machine bus cdc) → Bootable m
      → EndsWithLogs (kernel_boot o env hartid dtb_addr m)
  unfolding kernel_boot kernel_entry
  kernel_boot-HasLogs o env keeps hartid dtb_addr m h =
      then-EndsWithLogs _ (finish_boot o env)
        (boot_worker-HasLogs o _ (
          trace-HasLogs TraceCode.kernel_boot_worker worker_load_addr _ _ (
            start_console-HasLogs o _
              (note_entry-HasLogs o hartid dtb_addr _ (greet-Bootable o hartid dtb_addr m h)))))
        (λ a g. finish_boot-HasLogs o env keeps a g)

-- Whatever memory held at the start, if its log is well-formed and its page invalid or
-- well-formed, and the other cores keep the logs well-formed, then the fault ring, the trace ring
-- and the persistent log are well-formed after any number of rounds of the supervisor loop, and
-- also where the kernel panics on the way.
pub kernel_main-HasLogs :
    (bus : Bus) (cdc : Cdc) (o : Options) (boot_env : Env) (env : ℕ → (Shared → Shared) × Env)
    (hartid dtb_addr n : ℕ) (m : Machine bus cdc)
    → ((i : ℕ) → KeepsLogs (boot_env i))
    → ((i : ℕ) → KeepsLogs ((env i).0))
    → ((i j : ℕ) → KeepsLogs ((env i).1 j))
    → Bootable m
    → RoundWithLogs (kernel_main o boot_env env hartid dtb_addr n m)
unfolding kernel_main
kernel_main-HasLogs bus cdc o boot_env env hartid dtb_addr n m at_boot before within h =
    then-RoundWithLogs (kernel_boot o boot_env hartid dtb_addr m)
      (λ m'. supervise o env n 0 (no_watch, m'))
      (kernel_boot-HasLogs o boot_env at_boot hartid dtb_addr m h)
      (λ a g. supervise-HasLogs o env before within n 0 (no_watch, a) g)
