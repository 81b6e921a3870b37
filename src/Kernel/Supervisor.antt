-- ===== src/Kernel/Supervisor.antt =====
-- kernel/main.c: the supervisor loop.
use sg2002_kraken.Base.{
  ℕ, zero, suc, ◌+◌, [], ◌∷◌, ltb, ◌==◌, ◌!=◌, if◌then◌else◌, bit_and, set_bits, u32,
}
use sg2002_kraken.Mmio.{Bus}
use sg2002_kraken.Kraken.Config.{worker_stale_spins}
use sg2002_kraken.Kraken.Cmd
use sg2002_kraken.Kraken.CoreState
use sg2002_kraken.Kraken.PlatErr
use sg2002_kraken.Kraken.SysFlag
use sg2002_kraken.Kraken.TraceCode
use sg2002_kraken.Kraken.Options.{Options}
use sg2002_kraken.Kraken.Structs.{SharedCtrl, Shared}
use sg2002_kraken.Ctl.{ctl_set_platform_error, ctl_clear_platform_error}
use sg2002_kraken.UsbSerial.{Cdc}
use sg2002_kraken.Console.{text}
use sg2002_kraken.Platform.{sg2002_user_led_toggle, mailbox_send_8051}
use sg2002_kraken.Kernel.{
  Env, Machine, Run, running, stopped, and_then, worker_fault_code, worker_stale_code, on_shared,
  on_ctl, on_device, trace, say, kernel_panic,
}
use sg2002_kraken.Kernel.Commands.{poll, handle_console}
use sg2002_kraken.Kernel.Restart.{restart_worker}

-- `kernel_heartbeat++` and `kernel_pet_seq++`
unfoldable pub beat : SharedCtrl → SharedCtrl
beat ctl = record ctl {
  kernel_heartbeat = u32 (ctl.kernel_heartbeat + 1);
  kernel_pet_seq = u32 (ctl.kernel_pet_seq + 1);
}

-- `stale` and `last_worker_hb` of `kernel_main`
pub record Watch : Type 0 where
  pub stale : ℕ
  pub last_worker_hb : ℕ

-- Before the first round.
abbrev pub no_watch : Watch
no_watch = record { stale = 0; last_worker_hb = 0 }

unfoldable pub note_beat : SharedCtrl → Watch → Watch
note_beat ctl w =
    if ctl.worker_heartbeat == w.last_worker_hb
    then record w { stale = u32 (w.stale + 1) }
    else record { stale = 0; last_worker_hb = ctl.worker_heartbeat }

-- The state of the supervisor loop.
abbrev pub Supervisor : Bus → Cdc → Type 0
Supervisor bus cdc = Watch × Machine bus cdc

module _ {bus : Bus} {cdc : Cdc} where
  -- The kernel counts a beat and pets the watchdog; now and then it shows so.
  unfoldable pub pet : Options → Machine bus cdc → Machine bus cdc
  unfolding beat
  pet o m =
      let beaten = on_ctl beat m in
      let ctl = beaten.shared.ctl in
      let petted = on_device (mailbox_send_8051 bus Cmd.pet_8051 ctl.kernel_pet_seq) beaten in
      let shown =
        on_device (sg2002_user_led_toggle bus o)
          (trace TraceCode.kernel_heartbeat ctl.kernel_heartbeat ctl.worker_heartbeat petted) in
      if bit_and ctl.kernel_heartbeat 0x1ffff == 0 then shown else petted

  -- A round of the supervisor loop from the test of the watchdog's flag up to the console.
  unfoldable pub serve : Options → Machine bus cdc → Machine bus cdc
  unfolding pet
  serve o m = handle_console (poll (pet o m))

  -- The restart of the worker, by the end of a round.
  unfoldable pub restarted :
      Options
      → Env
      → (reason : ℕ) → Watch
      → Machine bus cdc
      → Run (Machine bus cdc) (Supervisor bus cdc)
  unfolding restart_worker and_then
  restarted o env reason w m =
      and_then (restart_worker o env reason m) λ m'. running (record w { stale = 0 }, m')

  -- The end of a round: what it does about the worker.
  unfoldable pub check_worker :
      Options → Env → Watch → Machine bus cdc → Run (Machine bus cdc) (Supervisor bus cdc)
  unfolding restarted say
  check_worker o env w m =
      let ctl = m.shared.ctl in
      let faulty =
        say (text "[kernel] worker fault\n" ∷ [])
          (trace TraceCode.kernel_worker_fault ctl.worker_cmd ctl.worker_cmd_ack m) in
      let raised =
        on_ctl
          (λ c.
            ctl_set_platform_error PlatErr.worker_stale
              (record c { system_flags = set_bits c.system_flags SysFlag.worker_stale }))
          m in
      let silent =
        say (text "[kernel] worker stale\n" ∷ [])
          (trace TraceCode.kernel_worker_stale w.stale ctl.worker_heartbeat raised) in
      if ctl.worker_state == CoreState.fault
      then restarted o env worker_fault_code w faulty
      else if ltb worker_stale_spins w.stale
      then restarted o env worker_stale_code w silent
      else if w.stale == 0
      then running (w, on_ctl (ctl_clear_platform_error PlatErr.worker_stale) m)
      else running (w, m)

  -- One round of the supervisor loop, behind its `ctl_invalidate`. `env` is what the other cores
  -- write while the kernel waits for a worker that it restarts.
  unfoldable pub supervisor_round :
      Options → Env → Supervisor bus cdc → Run (Machine bus cdc) (Supervisor bus cdc)
  unfolding kernel_panic serve note_beat check_worker
  supervisor_round o env (w, m) =
      let ctl = m.shared.ctl in
      let served = serve o m in
      let checked = check_worker o env (note_beat (served.shared.ctl) w) served in
      if bit_and ctl.system_flags SysFlag.watchdog_timeout != 0
      then stopped (
          kernel_panic (if ctl.reset_reason != 0 then ctl.reset_reason else 0x8051ffff)
            SysFlag.watchdog_timeout m)
      else checked

  -- `n` rounds; `env i` is what the other cores write before round `i`, and in the wait in it.
  unfoldable pub supervise :
      Options
      → (ℕ → (Shared → Shared) × Env)
      → (n i : ℕ) → Supervisor bus cdc
      → Run (Machine bus cdc) (Supervisor bus cdc)
  unfolding supervisor_round and_then
  supervise o env zero i s = running s
  supervise o env (suc n) i (w, m) =
      and_then (supervisor_round o ((env i).1) (w, on_shared ((env i).0) m))
        (supervise o env n (i + 1))
