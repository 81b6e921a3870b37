-- ===== src/Kernel/Invariant/Rounds.antt =====
-- The logs through the console and the supervisor loop, of kernel/main.c.
use sg2002_kraken.Base.{
  ℕ, zero, suc, List, [], ◌∷◌, bit_and, ◌!=◌, if◌then◌else◌, refl, ◌+◌, ◌==◌, ltb, set_bits,
}
use sg2002_kraken.Mmio.{Bus}
use sg2002_kraken.Kraken.TraceCode
use sg2002_kraken.Platform.{mailbox_send_8051, sg2002_user_led_toggle}
use sg2002_kraken.Kraken.PlatErr
use sg2002_kraken.Kraken.Cmd
use sg2002_kraken.Kraken.CoreState
use sg2002_kraken.Kraken.Config.{worker_stale_spins}
use sg2002_kraken.Kraken.SysFlag
use sg2002_kraken.Kraken.Options.{Options}
use sg2002_kraken.Kraken.Structs.{Shared}
use sg2002_kraken.UsbSerial.{Cdc, usb_serial_read}
use sg2002_kraken.Persist.Ring.{ctl_persist_clear-IsLog, IsLog-IsPage}
use sg2002_kraken.Ctl.{ctl_next_cmd_seq, ctl_set_platform_error, ctl_clear_platform_error}
use sg2002_kraken.Kernel.{
  Env, Machine, Run, and_then, on_ctl, worker_fault_code, worker_stale_code, send_worker_cmd,
}
use sg2002_kraken.Kernel.Editor.{Command, edit}
use sg2002_kraken.Kernel.Commands.{run_command, run_commands, handle_console, poll}
use sg2002_kraken.Kernel.Supervisor.{
  Watch, Supervisor, beat, pet, serve, note_beat, restarted, check_worker, supervisor_round,
  supervise,
}
use sg2002_kraken.Kernel.Invariant.{
  if_both, AllEnds, and_then-AllEnds, HasLogs, KeepsLogs, EndsWithLogs, on_shared-HasLogs,
  on_ctl-HasLogs, on_device-HasLogs, say-HasLogs, trace-HasLogs, kernel_panic-HasLogs,
}
use sg2002_kraken.Kernel.Invariant.Restart.{restart_worker-HasLogs}

module _ {bus : Bus} {cdc : Cdc} where
  pub run_command-HasLogs :
      (k : Command) (m : Machine bus cdc) → HasLogs m → HasLogs (run_command k m)
  unfolding run_command send_worker_cmd ctl_next_cmd_seq
  run_command-HasLogs Command.status m h = say-HasLogs _ _ h
  run_command-HasLogs Command.cpu m h = say-HasLogs _ _ h
  run_command-HasLogs Command.trap m h = say-HasLogs _ _ h
  run_command-HasLogs Command.faults m h = say-HasLogs _ _ h
  run_command-HasLogs Command.trace m h = say-HasLogs _ _ h
  run_command-HasLogs Command.persist m h = say-HasLogs _ _ h
  run_command-HasLogs Command.persist_clear m h = say-HasLogs _ _ (
      on_shared-HasLogs _ m
        (λ s g. record {
          faults = g.faults;
          traces = g.traces;
          page = IsLog-IsPage ctl_persist_clear-IsLog;
        })
        h)
  run_command-HasLogs Command.run m h = on_ctl-HasLogs _ _ (λ c. (refl, refl)) (say-HasLogs _ m h)
  run_command-HasLogs Command.panic m h = on_ctl-HasLogs _ _ (λ c. (refl, refl)) (say-HasLogs _ m h)
  run_command-HasLogs Command.stop m h = on_ctl-HasLogs _ _ (λ c. (refl, refl)) (say-HasLogs _ m h)
  run_command-HasLogs Command.unknown m h = say-HasLogs _ _ h
  run_command-HasLogs Command.blank m h = h

  pub run_commands-HasLogs :
      (ks : List Command) (m : Machine bus cdc) → HasLogs m → HasLogs (run_commands ks m)
  unfolding run_commands
  run_commands-HasLogs [] m h = h
  run_commands-HasLogs (k ∷ ks) m h = run_commands-HasLogs ks _ (run_command-HasLogs k m h)

  pub handle_console-HasLogs : (m : Machine bus cdc) → HasLogs m → HasLogs (handle_console m)
  unfolding handle_console
  handle_console-HasLogs m h =
      let (bytes, usb') = usb_serial_read 32 m.shared.ctl.usb in
      let (commands, line') = edit bytes m.line in
      run_commands-HasLogs commands _ (
        on_ctl-HasLogs (λ ctl. record ctl { usb = usb' }) (record m { line = line' })
          (λ c. (refl, refl)) (record { logs = h.logs }))

  pub poll-HasLogs : (m : Machine bus cdc) → HasLogs m → HasLogs (poll m)
  unfolding poll
  poll-HasLogs m h = on_ctl-HasLogs _ _ (λ c. (refl, refl)) (record { logs = h.logs })

  pub pet-HasLogs : (o : Options) (m : Machine bus cdc) → HasLogs m → HasLogs (pet o m)
  unfolding pet beat
  pet-HasLogs o m h =
      let beaten = on_ctl-HasLogs beat m (λ c. (refl, refl)) h in
      let ctl = (on_ctl beat m).shared.ctl in
      let petted =
        on_device-HasLogs (mailbox_send_8051 bus Cmd.pet_8051 ctl.kernel_pet_seq) _ beaten in
      let shown = on_device-HasLogs (sg2002_user_led_toggle bus o) _ (
        trace-HasLogs TraceCode.kernel_heartbeat ctl.kernel_heartbeat ctl.worker_heartbeat _
          petted) in
      if_both HasLogs (bit_and ctl.kernel_heartbeat 0x1ffff == 0) shown petted

  pub serve-HasLogs : (o : Options) (m : Machine bus cdc) → HasLogs m → HasLogs (serve o m)
  unfolding serve
  serve-HasLogs o m h = handle_console-HasLogs _ (poll-HasLogs _ (pet-HasLogs o m h))

  -- However a round of the supervisor ends, the logs are well-formed.
  abbrev pub RoundWithLogs : Run (Machine bus cdc) (Supervisor bus cdc) → Type 0
  RoundWithLogs = AllEnds HasLogs (λ s. HasLogs (s.1))

  pub restarted-HasLogs :
      (o : Options) (env : Env)
      → ((i : ℕ) → KeepsLogs (env i))
      → (reason : ℕ) (w : Watch) (m : Machine bus cdc) → HasLogs m
      → RoundWithLogs (restarted o env reason w m)
  unfolding restarted
  restarted-HasLogs o env keeps reason w m h =
      and_then-AllEnds HasLogs HasLogs (λ s. HasLogs (s.1)) _ _
        (restart_worker-HasLogs o env keeps reason m h) (λ a g. g)

  pub check_worker-HasLogs :
      (o : Options) (env : Env)
      → ((i : ℕ) → KeepsLogs (env i))
      → (w : Watch) (m : Machine bus cdc) → HasLogs m
      → RoundWithLogs (check_worker o env w m)
  unfolding check_worker ctl_set_platform_error ctl_clear_platform_error
  check_worker-HasLogs o env keeps w m h =
      let ctl = m.shared.ctl in
      if_both RoundWithLogs (ctl.worker_state == CoreState.fault)
        (restarted-HasLogs o env keeps worker_fault_code w _ (
          say-HasLogs _ _
            (trace-HasLogs TraceCode.kernel_worker_fault ctl.worker_cmd ctl.worker_cmd_ack m h)))
        (if_both RoundWithLogs (ltb worker_stale_spins w.stale)
          (restarted-HasLogs o env keeps worker_stale_code w _ (
            say-HasLogs _ _ (
              trace-HasLogs TraceCode.kernel_worker_stale w.stale ctl.worker_heartbeat _ (
                on_ctl-HasLogs
                  (λ c.
                    ctl_set_platform_error PlatErr.worker_stale
                      (record c { system_flags = set_bits c.system_flags SysFlag.worker_stale }))
                  m (λ c. (refl, refl)) h))))
          (if_both RoundWithLogs (w.stale == 0)
            (on_ctl-HasLogs (ctl_clear_platform_error PlatErr.worker_stale) m (λ c. (refl, refl)) h)
            h))

  pub supervisor_round-HasLogs :
      (o : Options) (env : Env)
      → ((i : ℕ) → KeepsLogs (env i))
      → (s : Supervisor bus cdc) → HasLogs (s.1)
      → RoundWithLogs (supervisor_round o env s)
  unfolding supervisor_round
  supervisor_round-HasLogs o env keeps (w, m) h =
      if_both RoundWithLogs (bit_and m.shared.ctl.system_flags SysFlag.watchdog_timeout != 0)
        (kernel_panic-HasLogs
          (if m.shared.ctl.reset_reason != 0 then m.shared.ctl.reset_reason else 0x8051ffff)
          SysFlag.watchdog_timeout m h)
        (check_worker-HasLogs o env keeps (note_beat ((serve o m).shared.ctl) w) _
          (serve-HasLogs o m h))

  pub supervise-HasLogs :
      (o : Options) (env : ℕ → (Shared → Shared) × Env)
      → ((i : ℕ) → KeepsLogs ((env i).0))
      → ((i j : ℕ) → KeepsLogs ((env i).1 j))
      → (n i : ℕ) (s : Supervisor bus cdc) → HasLogs (s.1)
      → RoundWithLogs (supervise o env n i s)
  unfolding supervise
  supervise-HasLogs o env before within zero i s h = h
  supervise-HasLogs o env before within (suc n) i (w, m) h =
      and_then-AllEnds HasLogs (λ s. HasLogs (s.1)) (λ s. HasLogs (s.1)) _ _
        (supervisor_round-HasLogs o ((env i).1) (within i) _
          (on_shared-HasLogs ((env i).0) m (before i) h))
        (λ s g. supervise-HasLogs o env before within n (i + 1) s g)

  pub then-RoundWithLogs :
      (r : Run (Machine bus cdc) (Machine bus cdc))
      (next : Machine bus cdc → Run (Machine bus cdc) (Supervisor bus cdc))
      → EndsWithLogs r
      → ((a : Machine bus cdc) → HasLogs a → RoundWithLogs (next a))
      → RoundWithLogs (and_then r next)
  then-RoundWithLogs r next h step =
      and_then-AllEnds HasLogs HasLogs (λ (s : Supervisor bus cdc). HasLogs (s.1)) r next h step
