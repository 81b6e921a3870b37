-- ===== src/Kernel/Tests.antt =====
-- Concrete runs of the kernel.
use sg2002_kraken.Base.{
  ◌+◌, u32, inl, inr, ◌==◌, if◌then◌else◌, ℕ, ◌≡◌, ◌⊎◌, refl, inr, arith, true, List, [], ◌∷◌, ◌++◌,
  length, bit, ◌==◌, if◌then◌else◌,
}
use sg2002_kraken.Mmio.{register_file}
use sg2002_kraken.Kraken.Config.{worker_ack_spins}
use sg2002_kraken.Kraken.CoreState
use sg2002_kraken.Kraken.Stage
use sg2002_kraken.Kraken.Options.{default_options}
use sg2002_kraken.Kraken.Structs.{Shared}
use sg2002_kraken.UsbSerial.{Cdc}
use sg2002_kraken.Console.{Out, Piece, text, word, print, codes}
use sg2002_kraken.Console.Write.{uart_text, usb_text, print_lem}
use sg2002_kraken.UsbSerial.Write.{accepted}
use sg2002_kraken.UsbSerial.Queue.{IsUsb, tx_queue, rx_queue}
use sg2002_kraken.Ctl.Tests.{blank, blank-IsPage, blank-IsShared}
use sg2002_kraken.Ctl.Zero.{zero_usb, zero_ctl}
use sg2002_kraken.Kernel.{
  send_worker_cmd, Env, Machine, running, say, on_shared, on_ctl, note_online, is_online,
}
use sg2002_kraken.Kernel.Editor.{Command, no_line, edit}
use sg2002_kraken.Kernel.Editor.Typed.{Shows, typed_commands, edit_lem}
use sg2002_kraken.Kernel.Ack.{
  Acked, wait_for_worker_ack_lem, wait_from-online, watchdog_not_started,
}
use sg2002_kraken.Kernel.Restart.{wait_for_worker_ack, ensure_watchdog_started}
use sg2002_kraken.Kernel.Main.{kernel_online, kernel_main}
use sg2002_kraken.Platform.{sg2002_user_led_set}
use sg2002_kraken.Ctl.{ctl_set_stage, ctl_next_cmd_seq, ctl_fault_log, ctl_trace_log}
use sg2002_kraken.Watchdog as Dog
use sg2002_kraken.Worker as Core
use sg2002_kraken.Kernel.Commands.{run_command}
use sg2002_kraken.Kernel.Handshake.{panic_command_restarts}
use sg2002_kraken.Ctl.Logs.{fault_view, trace_view}
use sg2002_kraken.Persist.{persist_valid}
use sg2002_kraken.Persist.Ring.{visible}
use sg2002_kraken.Kernel.Report.{
  fault_line, trace_line, persist_line, persist_header, print_faults, print_trace, print_persist,
}
use sg2002_kraken.Kernel.Report.Listing.{listing, print_logs_lem}
use sg2002_kraken.Kernel.Supervisor.{Watch, no_watch, supervisor_round, supervise}
use sg2002_kraken.Kernel.Invariant.{AllEnds}
use sg2002_kraken.Kernel.Invariant.Rounds.{RoundWithLogs}
use sg2002_kraken.Kernel.Invariant.Main.{kernel_main-HasLogs}
use sg2002_kraken.Kernel.Alarm.{ResetFor, watchdog_signal_stops_kernel}
use sg2002_kraken.Kernel.Stale.{Calm, GoesOn, supervise_no_false_restart}
use sg2002_kraken.Kernel.Restarts.{Panicked}
use sg2002_kraken.Kernel.Revive.{Revived}
use sg2002_kraken.Kernel.Silent.{supervise_silent_worker}

-- A host that takes everything.
abbrev pub host : Cdc
host = record {
  Device = List ℕ;
  start = λ d. (true, d);
  inited = λ d. true;
  task = λ d. ([], d);
  connected = λ d. true;
  available = λ d. 0;
  read = λ n d. ([], d);
  write = λ bytes d. (length bytes, d ++ bytes);
  write_flush = λ d. d;
}

abbrev pub machine : Machine register_file host
machine = record {
  shared = blank;
  mem = λ a. 0;
  device = λ a. 0;
  host = [];
  uart = [];
  line = no_line;
}

-- The worker comes up before the first look.
abbrev comes_up : Env
comes_up i s = record s {
  ctl = record (s.ctl) { worker_boot_ack = 0x4b52414b; worker_state = CoreState.idle };
}

abbrev pub idle_cores : Env
idle_cores i s = s

abbrev pieces : List Piece
pieces = text "[a]\n" ∷ word 0x2a ∷ []

abbrev nothing_sent : Out
nothing_sent = record { uart = []; usb = record zero_usb { console_enabled = 1 } }

nothing_sent-IsUsb : IsUsb (nothing_sent.usb)
nothing_sent-IsUsb = record {
  tx = record { slots = refl; head_in = omega arith; tail_in = omega arith };
  rx = record { slots = refl; head_in = omega arith; tail_in = omega arith };
}

print_example :
    let after = print host pieces [] nothing_sent in
    (after.uart ≡ [] ++ uart_text pieces)
    × (tx_queue (after.usb)
        ≡ tx_queue (nothing_sent.usb) ++ accepted host [] (nothing_sent.usb) (usb_text pieces))
    × (rx_queue (after.usb) ≡ rx_queue (nothing_sent.usb))
    × IsUsb (after.usb)
print_example = print_lem host [] pieces nothing_sent nothing_sent-IsUsb

no_line-Shows : Shows [] no_line
no_line-Shows = record { slots = refl; count = refl; text = refl }

edit_example :
    ((edit (codes "run\r\nst") no_line).0 ≡ (typed_commands (codes "run\r\nst") []).0)
    × Shows ((typed_commands (codes "run\r\nst") []).1) ((edit (codes "run\r\nst") no_line).1)
edit_example = edit_lem (codes "run\r\nst") no_line-Shows

abbrev waiting : Machine register_file host
waiting =
    say (text "[kernel] wait worker ack\n" ∷ [])
      (on_shared (ctl_set_stage Stage.worker_wait_ack) machine)

wait_for_worker_ack_example :
    Acked comes_up worker_ack_spins 0 (waiting.shared) (wait_for_worker_ack comes_up machine)
wait_for_worker_ack_example = wait_for_worker_ack_lem register_file host comes_up machine

abbrev up : Machine register_file host
up =
    say (text "[kernel] worker online\n" ∷ []) (on_ctl note_online (on_shared (comes_up 0) waiting))

comes_up-running : wait_for_worker_ack comes_up machine ≡ running up
unfolding wait_for_worker_ack is_online
comes_up-running = wait_from-online comes_up 664061 0 waiting refl

watchdog_not_started_example :
    (up.shared.ctl.system_stage ≡ Stage.worker_wait_ack)
    × (ensure_watchdog_started up ≡ up)
    × ((kernel_online default_options up).device
        ≡ sg2002_user_led_set register_file default_options true (up.device))
watchdog_not_started_example =
    watchdog_not_started register_file host default_options comes_up machine up (λ i s. refl)
      comes_up-running

print_logs_example :
    (print_faults (blank.ctl) ≡ (
      if blank.ctl.faults.count == 0
      then text "[fault] none\n" ∷ []
      else listing fault_line (fault_view (blank.ctl))))
    × (print_trace (blank.ctl) ≡ (
        if blank.ctl.traces.count == 0
        then text "[trace] none\n" ∷ []
        else listing trace_line (trace_view (blank.ctl))))
    × (print_persist (blank.log) ≡ (
        if persist_valid (blank.log)
        then persist_header (blank.log) ++ listing persist_line (visible (blank.log))
        else text "[persist] none\n" ∷ []))
print_logs_example = print_logs_lem blank blank-IsShared

abbrev idle_rounds : ℕ → (Shared → Shared) × Env
idle_rounds i = (λ s. s, idle_cores)

kernel_main-HasLogs_example :
    RoundWithLogs (kernel_main default_options comes_up idle_rounds 0 0x1000 2 machine)
kernel_main-HasLogs_example =
    kernel_main-HasLogs register_file host default_options comes_up idle_rounds 0 0x1000 2 machine
      (λ i s h. record { faults = h.faults; traces = h.traces; page = h.page }) (λ i s h. h)
      (λ i j s h. h) (blank-IsPage, inr blank-IsShared)

-- The watchdog has waited for the kernel up to its limit.
abbrev at_limit : Dog.Watch
at_limit = record { last_pet = 0; last_worker = 0; kernel_timeout = 60000; worker_timeout = 10 }

at_limit-signals : (Dog.round (Dog.watching at_limit) zero_ctl).0 ≡ Dog.signalled
unfolding Dog.round
at_limit-signals = refl

abbrev alarmed : Machine register_file host
alarmed = record machine {
  shared = record blank { ctl = (Dog.round (Dog.watching at_limit) zero_ctl).1 };
}

watchdog_signal_example :
    AllEnds
      (λ t.
        ResetFor Dog.kernel_reason alarmed t × (at_limit.kernel_timeout ≡ Dog.timeout_rounds)
        ⊎ ResetFor Dog.worker_reason alarmed t × (at_limit.worker_timeout ≡ Dog.timeout_rounds))
      (λ _. ⊥)
      (supervisor_round default_options idle_cores (no_watch, alarmed))
watchdog_signal_example =
    watchdog_signal_stops_kernel register_file host default_options idle_cores at_limit zero_ctl
      no_watch alarmed (record { kernel_in = omega arith; worker_in = omega arith })
      at_limit-signals refl

blank-Calm : Calm (machine.shared.ctl)
unfolding bit
blank-Calm = (refl, omega arith)

-- A worker in its loop, without a command: all that it writes is its heartbeat.
abbrev idle_worker : Shared → Shared
idle_worker s = record s {
  ctl = record (s.ctl) { worker_heartbeat = u32 (s.ctl.worker_heartbeat + 1) };
}

supervise_no_false_restart_example :
    AllEnds
      (λ _. ⊥)
      (GoesOn 3 machine)
      (supervise default_options (λ j. (idle_worker, idle_cores)) 3 0 (no_watch, machine))
supervise_no_false_restart_example =
    supervise_no_false_restart register_file host default_options (λ j. (idle_worker, idle_cores)) 3
      0 no_watch machine (λ j s calm. ((calm.0, calm.1), refl)) blank-Calm (omega arith)

abbrev almost : Watch
almost = record { stale = 84999; last_worker_hb = 0 }

supervise_silent_worker_example :
    AllEnds Panicked
      (Revived machine)
      (supervise default_options (λ j. (λ s. s, idle_cores)) 2 0 (almost, machine))
supervise_silent_worker_example =
    supervise_silent_worker register_file host default_options (λ j. (λ s. s, idle_cores)) 1 0
      almost machine (λ j s calm. (calm, refl, refl)) (λ j k s. refl) blank-Calm (inl (refl, refl))

abbrev panic_sent : Machine register_file host
panic_sent = run_command Command.panic machine

abbrev panic_served : Machine register_file host
panic_served = record panic_sent { shared = (Core.worker_round idle_cores panic_sent.shared).1 }

no_alarm : bit panic_served.shared.ctl.system_flags 31 ≡ 0
unfolding Core.worker_round run_command bit on_ctl send_worker_cmd ctl_next_cmd_seq ctl_fault_log
    ctl_trace_log
no_alarm = refl

panic_command_example :
    (panic_served.shared.ctl.worker_state ≡ CoreState.fault)
    × (panic_served.shared.ctl.worker_cmd_ack ≡ panic_served.shared.ctl.kernel_cmd_seq)
    × AllEnds Panicked
        (Revived panic_served)
        (supervisor_round default_options idle_cores (no_watch, panic_served))
panic_command_example =
    panic_command_restarts register_file host default_options idle_cores idle_cores no_watch machine
      (λ i s. refl) no_alarm
