-- ===== src/Kernel/Commands.antt =====
-- kernel/main.c: the console commands.
use sg2002_kraken.Base.{List, [], ◌∷◌}
use sg2002_kraken.Mmio.{Bus}
use sg2002_kraken.Kraken.Cmd
use sg2002_kraken.Persist.{ctl_persist_clear}
use sg2002_kraken.UsbSerial.{Cdc, usb_serial_poll, usb_serial_read}
use sg2002_kraken.Console.{text}
use sg2002_kraken.Kernel.Editor.{Command, edit}
use sg2002_kraken.Kernel.Report.{
  print_status, print_cpu, print_trap, print_faults, print_trace, print_persist,
}
use sg2002_kraken.Kernel.{Machine, send_worker_cmd, on_shared, on_ctl, say}

module _ {bus : Bus} {cdc : Cdc} where
  -- What a console command does.
  unfoldable pub run_command : Command → Machine bus cdc → Machine bus cdc
  unfolding say
  run_command Command.status m = say (print_status m.shared) m
  run_command Command.cpu m = say (print_cpu m.shared.ctl) m
  run_command Command.trap m = say (print_trap m.shared.ctl) m
  run_command Command.faults m = say (print_faults m.shared.ctl) m
  run_command Command.trace m = say (print_trace m.shared.ctl) m
  run_command Command.persist m = say (print_persist m.shared.log) m
  run_command Command.persist_clear m =
      say (text "[kernel] persistent log cleared\n" ∷ [])
        (on_shared (λ s. record s { log = ctl_persist_clear }) m)
  run_command Command.run m =
      on_ctl (send_worker_cmd Cmd.run_job 0x1234 0)
        (say (text "[kernel] queue worker job\n" ∷ []) m)
  run_command Command.panic m =
      on_ctl (send_worker_cmd Cmd.panic 0 0) (say (text "[kernel] inject worker panic\n" ∷ []) m)
  run_command Command.stop m =
      on_ctl (send_worker_cmd Cmd.stop 0 0) (say (text "[kernel] stop worker\n" ∷ []) m)
  run_command Command.unknown m =
      say
        (text
            "[kernel] commands: status cpu trap faults trace persist persist-clear run panic stop\n"
          ∷ [])
        m
  run_command Command.blank m = m

  unfoldable pub run_commands : List Command → Machine bus cdc → Machine bus cdc
  unfolding run_command
  run_commands [] m = m
  run_commands (k ∷ ks) m = run_commands ks (run_command k m)

  unfoldable pub handle_console : Machine bus cdc → Machine bus cdc
  unfolding run_commands
  handle_console m =
      let (bytes, usb') = usb_serial_read 32 m.shared.ctl.usb in
      let (commands, line') = edit bytes m.line in
      run_commands commands (on_ctl (λ ctl. record ctl { usb = usb' }) (record m { line = line' }))

  -- `usb_serial_poll()`
  unfoldable pub poll : Machine bus cdc → Machine bus cdc
  poll m =
      let (usb', host') = usb_serial_poll cdc m.shared.ctl.usb m.host in
      on_ctl (λ ctl. record ctl { usb = usb' }) (record m { host = host' })
