-- ===== src/Kernel/Handshake.antt =====
-- kernel/main.c with worker_rtos/main.c: a command from the console to the worker and back.
use sg2002_kraken.Base.{
  ℕ, ◌+◌, ◌≡◌, ◌≢◌, refl, ◌∙◌, inl, arith, bit, u32, bit_xor, ◌%◌, ◌^◌, ◌<◌, Bool, false,
  if◌then◌else◌, ◌==◌, [], ◌∷◌,
}
use sg2002_kraken.Mmio.{Bus}
use sg2002_kraken.Kraken.Cmd
use sg2002_kraken.Kraken.CoreState
use sg2002_kraken.Kraken.Options.{Options}
use sg2002_kraken.Kraken.Structs.{Shared}
use sg2002_kraken.UsbSerial.{Cdc}
use sg2002_kraken.Console.{text}
use sg2002_kraken.Ctl.{ctl_next_cmd_seq}
use sg2002_kraken.Kernel.{Env, Machine, send_worker_cmd, on_ctl, say}
use sg2002_kraken.Kernel.Editor.{Command}
use sg2002_kraken.Kernel.Commands.{run_command}
use sg2002_kraken.Kernel.Supervisor.{Watch, supervisor_round}
use sg2002_kraken.Kernel.Invariant.{AllEnds}
use sg2002_kraken.Kernel.Restarts.{Panicked}
use sg2002_kraken.Kernel.Revive.{Revived, supervisor_round_restarts}
use sg2002_kraken.Worker as Core
use sg2002_kraken.Worker.Commands.{worker_round_lem, state_after}
use sg2002_kraken.Worker.Job.{IsQuietAt}
use sg2002_kraken.Worker.Served.{worker_round-IsDone}

-- What the worker leaves of the page in the round behind a command that the kernel has sent: the
-- state for that command, and the kernel's sequence number acknowledged.
pub send_worker_cmd_served :
    (wenv : Core.Env) (cmd arg0 arg1 : ℕ) (s : Shared)
    → cmd ≢ Cmd.none
    → let sent = record s { ctl = send_worker_cmd cmd arg0 arg1 (s.ctl) } in
      let served = (Core.worker_round wenv sent).1 in
      (sent.ctl.kernel_cmd_seq ≡ u32 (s.ctl.kernel_cmd_seq + 1))
      × (served.ctl.worker_state ≡ state_after cmd s.ctl.worker_state)
      × (served.ctl.worker_cmd_ack ≡ served.ctl.kernel_cmd_seq)
unfolding send_worker_cmd ctl_next_cmd_seq
send_worker_cmd_served wenv cmd arg0 arg1 s some_cmd =
    let h = worker_round_lem wenv (record s { ctl = send_worker_cmd cmd arg0 arg1 s.ctl }) in
    (refl, h.1, h.3 ∙ sent (cmd == Cmd.none) _ _ (ground arith))
  where
    sent : (b : Bool) (x y : ℕ) → b ≡ false → (if b then x else y) ≡ y
    sent b x y e = rw e refl

-- The console's panic and what comes of it: the worker's next round leaves it in its fault state,
-- with the kernel's sequence number acknowledged, and a round of the supervisor that sees this
-- page, with no alarm, restarts the worker once or panics, if the other cores leave the restart
-- count.
pub panic_command_restarts :
    (bus : Bus) (cdc : Cdc) (o : Options) (wenv : Core.Env) (env : Env) (w : Watch)
    (m : Machine bus cdc)
    → ((i : ℕ) (s : Shared) → (env i s).ctl.worker_restart_count ≡ s.ctl.worker_restart_count)
    → bit (Core.worker_round wenv (run_command Command.panic m).shared).1.ctl.system_flags 31 ≡ 0
    → let sent = run_command Command.panic m in
      let served = (Core.worker_round wenv sent.shared).1 in
      let back = record sent { shared = served } in
      (served.ctl.worker_state ≡ CoreState.fault)
      × (served.ctl.worker_cmd_ack ≡ served.ctl.kernel_cmd_seq)
      × AllEnds Panicked (Revived back) (supervisor_round o env (w, back))
unfolding run_command on_ctl
panic_command_restarts bus cdc o wenv env w m keeps quiet =
    let h =
      send_worker_cmd_served wenv Cmd.panic 0 0
        ((say (text "[kernel] inject worker panic\n" ∷ []) m).shared) (omega arith) in
    let back = record (run_command Command.panic m) {
      shared = (Core.worker_round wenv (run_command Command.panic m).shared).1;
    } in
    (h.1, h.2, supervisor_round_restarts bus cdc o env w back keeps quiet (inl h.1))

-- The console's run and what comes of it, if the other cores leave the job's fields alone: the
-- worker's next round leaves the result of the job's last round on the kernel's argument, with
-- the heartbeat 50001 further on, the worker idle, the command slot free and the kernel's
-- sequence number acknowledged.
pub run_command_result :
    (bus : Bus) (cdc : Cdc) (wenv : Core.Env) (m : Machine bus cdc)
    → ((j : ℕ) → IsQuietAt wenv j)
    → m.shared.ctl.worker_heartbeat < 2 ^ 32
    → let served = (Core.worker_round wenv (run_command Command.run m).shared).1 in
      (served.ctl.worker_result ≡ bit_xor 49999 0x1234)
      × (served.ctl.worker_heartbeat ≡ (m.shared.ctl.worker_heartbeat + 50001) % 2 ^ 32)
      × (served.ctl.worker_state ≡ CoreState.idle)
      × (served.ctl.worker_cmd ≡ Cmd.none)
      × (served.ctl.worker_cmd_ack ≡ served.ctl.kernel_cmd_seq)
unfolding run_command on_ctl say send_worker_cmd ctl_next_cmd_seq
run_command_result bus cdc wenv m quiet h =
    let sent = (run_command Command.run m).shared in
    let done = worker_round-IsDone wenv sent quiet refl h in
    let served = worker_round_lem wenv sent in
    (done.result, done.beat_of, served.1, served.2, served.3)
