-- ===== src/Kernel/Restart.antt =====
-- kernel/main.c: the boot of the worker, the wait for it, its restart, and the start of the 8051.
use sg2002_kraken.Base.{
  ℕ, zero, suc, ◌+◌, ◌||◌, not, none, some, [], ◌∷◌, leb, ◌!=◌, if◌then◌else◌, clear_bits, u32,
}
use sg2002_kraken.Mmio.{Bus}
use sg2002_kraken.Kraken.Config.{
  worker_load_addr, worker_shared_top, worker_staging_addr, worker_image_max_bytes,
  worker_ack_spins, fw8051_ddr_addr,
}
use sg2002_kraken.Kraken.Cmd
use sg2002_kraken.Kraken.CoreState
use sg2002_kraken.Kraken.FaultSource
use sg2002_kraken.Kraken.ImageKind
use sg2002_kraken.Kraken.PlatErr
use sg2002_kraken.Kraken.ReleaseStatus
use sg2002_kraken.Kraken.Stage
use sg2002_kraken.Kraken.SysFlag
use sg2002_kraken.Kraken.Options.{Options}
use sg2002_kraken.Image.{
  footer_size, sg2002_image_present, sg2002_validate_staged_image, sg2002_copy_image,
}
use sg2002_kraken.Ctl.{
  ctl_set_stage, ctl_fault_log, ctl_set_platform_error, ctl_clear_platform_error,
}
use sg2002_kraken.UsbSerial.{Cdc}
use sg2002_kraken.Console.{text, word}
use sg2002_kraken.Release.{sg2002_release_worker_core}
use sg2002_kraken.Platform.{mailbox_send_worker, sg2002_boot_8051}
use sg2002_kraken.Kernel.{
  Env, Machine, Run, running, stopped, and_then, image_missing_code, ack_timeout_code,
  release_failed_code, send_worker_cmd, is_online, note_online, note_restart, on_shared, on_ctl,
  on_device, say, kernel_panic,
}

module _ {bus : Bus} {cdc : Cdc} where
  -- `maybe_stage_worker`
  unfoldable pub maybe_stage_worker : Options → Machine bus cdc → Machine bus cdc
  unfolding say
  maybe_stage_worker o m =
      if not o.worker_staging || sg2002_image_present m.mem worker_load_addr
      then m
      else elim (sg2002_validate_staged_image m.mem worker_staging_addr
          (worker_image_max_bytes + footer_size) ImageKind.worker worker_load_addr
          worker_load_addr) [
            | some footer ↦
                let begun = say (text "[kernel] staging worker image\n" ∷ []) m in
                let (copied, mem') =
                  sg2002_copy_image worker_load_addr worker_staging_addr footer.payload_size
                    begun.mem in
                say (text "[kernel] worker bytes=0x" ∷ word (u32 copied) ∷ text "\n" ∷ []) (
                  on_ctl
                    (λ ctl. record ctl {
                      system_flags = clear_bits ctl.system_flags SysFlag.worker_image_missing;
                    })
                    (record begun { mem = mem' }))
            | none ↦
                say (text "[kernel] no valid staged worker image\n" ∷ [])
                  (on_ctl (ctl_set_platform_error PlatErr.worker_staging_invalid) m)
          ]

  -- `boot_worker` behind the check of the image, up to the release.
  unfoldable pub offer_worker : Machine bus cdc → Machine bus cdc
  unfolding say
  offer_worker m =
      let offered =
        on_ctl
          (λ ctl.
            send_worker_cmd Cmd.boot worker_load_addr worker_shared_top
              (record ctl { worker_state = CoreState.booting; worker_boot_ack = 0 }))
          m in
      say (text "[kernel] release worker core\n" ∷ []) (
        on_shared (ctl_set_stage Stage.worker_release)
          (on_device (mailbox_send_worker bus Cmd.boot worker_load_addr) offered))

  -- `boot_worker` where the release failed.
  unfoldable pub release_failed : (status : ℕ) → Machine bus cdc → Machine bus cdc
  unfolding say kernel_panic
  release_failed status m =
      let logged =
        on_shared (ctl_fault_log FaultSource.kernel release_failed_code status worker_load_addr)
          (on_ctl (ctl_set_platform_error PlatErr.worker_release_failed) m) in
      kernel_panic release_failed_code SysFlag.worker_release_fail
        (say (text "[kernel] worker release failed code=0x" ∷ word status ∷ text "\n" ∷ []) logged)

  unfoldable pub boot_worker : Options → Machine bus cdc → Run (Machine bus cdc) (Machine bus cdc)
  unfolding maybe_stage_worker kernel_panic offer_worker release_failed
  boot_worker o m =
      let staged = maybe_stage_worker o (on_shared (ctl_set_stage Stage.worker_prep) m) in
      let offered = offer_worker staged in
      let (status, device') = sg2002_release_worker_core bus o worker_load_addr offered.device in
      let released = record offered { device = device' } in
      if not (sg2002_image_present staged.mem worker_load_addr)
      then stopped (kernel_panic image_missing_code SysFlag.worker_image_missing staged)
      else if status != ReleaseStatus.ok
      then stopped (release_failed status released)
      else running (on_ctl (ctl_clear_platform_error PlatErr.worker_release_failed) released)

  -- The loop of `wait_for_worker_ack` at round `i`, with `left` rounds to go.
  unfoldable pub wait_from :
      Env → (left i : ℕ) → Machine bus cdc → Run (Machine bus cdc) (Machine bus cdc)
  unfolding is_online note_online say kernel_panic
  wait_from env zero i m = stopped (
      kernel_panic ack_timeout_code SysFlag.worker_stale
        (on_ctl (ctl_set_platform_error PlatErr.worker_ack_timeout) m))
  wait_from env (suc left) i m =
      let seen = on_shared (env i) m in
      let rest = wait_from env left (i + 1) seen in
      if is_online seen.shared.ctl
      then running (say (text "[kernel] worker online\n" ∷ []) (on_ctl note_online seen))
      else rest

  unfoldable pub wait_for_worker_ack :
      Env → Machine bus cdc → Run (Machine bus cdc) (Machine bus cdc)
  unfolding wait_from say
  wait_for_worker_ack env m = wait_from env worker_ack_spins 0 (
      say (text "[kernel] wait worker ack\n" ∷ [])
        (on_shared (ctl_set_stage Stage.worker_wait_ack) m))

  unfoldable pub restart_worker :
      Options → Env → (reason : ℕ) → Machine bus cdc → Run (Machine bus cdc) (Machine bus cdc)
  unfolding note_restart boot_worker wait_for_worker_ack and_then
  restart_worker o env reason m =
      and_then (boot_worker o (on_shared (note_restart reason) m)) (wait_for_worker_ack env)

  unfoldable pub ensure_watchdog_started : Machine bus cdc → Machine bus cdc
  unfolding say
  ensure_watchdog_started m =
      if leb Stage.watchdog_boot m.shared.ctl.system_stage
      then m
      else on_device (sg2002_boot_8051 bus fw8051_ddr_addr) (
          say (text "[kernel] starting 8051 watchdog\n" ∷ [])
            (on_shared (ctl_set_stage Stage.watchdog_boot) m))
