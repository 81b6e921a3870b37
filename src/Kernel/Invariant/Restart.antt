-- ===== src/Kernel/Invariant/Restart.antt =====
-- The logs through the boot and the restart of the worker, of kernel/main.c.
use sg2002_kraken.Base.{
  ℕ, zero, suc, [], ◌∷◌, Option-cases, inl, inr, ◌!=◌, refl, ◌+◌, not, ◌||◌, leb,
}
use sg2002_kraken.Mmio.{Bus}
use sg2002_kraken.Kraken.FaultSource
use sg2002_kraken.Kraken.Stage
use sg2002_kraken.Kraken.PlatErr
use sg2002_kraken.Kraken.ReleaseStatus
use sg2002_kraken.Release.{sg2002_release_worker_core}
use sg2002_kraken.Kraken.ImageKind
use sg2002_kraken.Image.{footer_size, sg2002_image_present, sg2002_validate_staged_image}
use sg2002_kraken.Kraken.Config.{
  worker_staging_addr, worker_image_max_bytes, worker_load_addr, worker_ack_spins,
}
use sg2002_kraken.Kraken.SysFlag
use sg2002_kraken.Kraken.Options.{Options}
use sg2002_kraken.Console.{text}
use sg2002_kraken.UsbSerial.{Cdc}
use sg2002_kraken.Ctl.{
  ctl_next_cmd_seq, ctl_set_platform_error, ctl_clear_platform_error, ctl_set_stage, ctl_fault_log,
}
use sg2002_kraken.Ctl.Logs.{ctl_fault_log-IsShared}
use sg2002_kraken.Kernel.{
  Env, Machine, note_restart, on_shared, is_online, release_failed_code, image_missing_code,
  ack_timeout_code, send_worker_cmd,
}
use sg2002_kraken.Kernel.Restart.{
  maybe_stage_worker, offer_worker, release_failed, boot_worker, wait_from, wait_for_worker_ack,
  restart_worker, ensure_watchdog_started,
}
use sg2002_kraken.Kernel.Invariant.{
  if_both, and_then-AllEnds, HasLogs, KeepsLogs, EndsWithLogs, note_restart-IsShared,
  note_online-KeepsRings, on_shared-HasLogs, on_ctl-HasLogs, on_device-HasLogs, say-HasLogs,
  stage-HasLogs, kernel_panic-HasLogs,
}

module _ {bus : Bus} {cdc : Cdc} where
  pub maybe_stage_worker-HasLogs :
      (o : Options) (m : Machine bus cdc) → HasLogs m → HasLogs (maybe_stage_worker o m)
  unfolding maybe_stage_worker ctl_set_platform_error
  maybe_stage_worker-HasLogs o m h =
      if_both HasLogs (not o.worker_staging || sg2002_image_present m.mem worker_load_addr) h
        (elim (Option-cases (
          sg2002_validate_staged_image m.mem worker_staging_addr
            (worker_image_max_bytes + footer_size) ImageKind.worker worker_load_addr
            worker_load_addr)) [
              | inl e ↦ rw e (say-HasLogs _ _ (on_ctl-HasLogs _ m (λ c. (refl, refl)) h))
              | inr (f, e) ↦ rw e (
                  say-HasLogs _ _ (
                    on_ctl-HasLogs _ _ (λ c. (refl, refl))
                      (record {
                        logs = (say-HasLogs (text "[kernel] staging worker image\n" ∷ []) m h).logs;
                      })))
            ])

  pub offer_worker-HasLogs : (m : Machine bus cdc) → HasLogs m → HasLogs (offer_worker m)
  unfolding offer_worker send_worker_cmd ctl_next_cmd_seq
  offer_worker-HasLogs m h =
      say-HasLogs _ _
        (stage-HasLogs _ _ (on_device-HasLogs _ _ (on_ctl-HasLogs _ m (λ c. (refl, refl)) h)))

  pub release_failed-HasLogs :
      (status : ℕ) (m : Machine bus cdc) → HasLogs m → HasLogs (release_failed status m)
  unfolding release_failed ctl_set_platform_error
  release_failed-HasLogs status m h =
      kernel_panic-HasLogs release_failed_code SysFlag.worker_release_fail _ (
        say-HasLogs _ _ (
          on_shared-HasLogs
            (ctl_fault_log FaultSource.kernel release_failed_code status worker_load_addr) _
            (λ s g. ctl_fault_log-IsShared _ _ _ _ g)
            (on_ctl-HasLogs (ctl_set_platform_error PlatErr.worker_release_failed) m
              (λ c. (refl, refl)) h)))

  pub boot_worker-HasLogs :
      (o : Options) (m : Machine bus cdc) → HasLogs m → EndsWithLogs (boot_worker o m)
  unfolding boot_worker ctl_clear_platform_error
  boot_worker-HasLogs o m h =
      let staged = maybe_stage_worker-HasLogs o _ (stage-HasLogs Stage.worker_prep m h) in
      let offered = offer_worker-HasLogs _ staged in
      let begun = maybe_stage_worker o (on_shared (ctl_set_stage Stage.worker_prep) m) in
      let status =
        (sg2002_release_worker_core bus o worker_load_addr (offer_worker begun).device).0 in
      if_both EndsWithLogs (not (sg2002_image_present begun.mem worker_load_addr))
        (kernel_panic-HasLogs image_missing_code SysFlag.worker_image_missing _ staged)
        (if_both EndsWithLogs (status != ReleaseStatus.ok)
          (release_failed-HasLogs _ _ (record { logs = offered.logs }))
          (on_ctl-HasLogs _ _ (λ c. (refl, refl)) (record { logs = offered.logs })))

  pub wait_from-HasLogs :
      (env : Env)
      → ((i : ℕ) → KeepsLogs (env i))
      → (left i : ℕ) (m : Machine bus cdc) → HasLogs m
      → EndsWithLogs (wait_from env left i m)
  unfolding wait_from ctl_set_platform_error
  wait_from-HasLogs env keeps zero i m h =
      kernel_panic-HasLogs ack_timeout_code SysFlag.worker_stale _
        (on_ctl-HasLogs (ctl_set_platform_error PlatErr.worker_ack_timeout) m (λ c. (refl, refl)) h)
  wait_from-HasLogs env keeps (suc left) i m h =
      let seen = on_shared-HasLogs (env i) m (keeps i) h in
      if_both EndsWithLogs (is_online ((on_shared (env i) m).shared.ctl))
        (say-HasLogs _ _ (on_ctl-HasLogs _ _ note_online-KeepsRings seen))
        (wait_from-HasLogs env keeps left (i + 1) _ seen)

  pub wait_for_worker_ack-HasLogs :
      (env : Env)
      → ((i : ℕ) → KeepsLogs (env i))
      → (m : Machine bus cdc) → HasLogs m
      → EndsWithLogs (wait_for_worker_ack env m)
  unfolding wait_for_worker_ack
  wait_for_worker_ack-HasLogs env keeps m h =
      wait_from-HasLogs env keeps worker_ack_spins 0 _
        (say-HasLogs _ _ (stage-HasLogs Stage.worker_wait_ack m h))

  pub restart_worker-HasLogs :
      (o : Options) (env : Env)
      → ((i : ℕ) → KeepsLogs (env i))
      → (reason : ℕ) (m : Machine bus cdc) → HasLogs m
      → EndsWithLogs (restart_worker o env reason m)
  unfolding restart_worker
  restart_worker-HasLogs o env keeps reason m h =
      and_then-AllEnds HasLogs HasLogs HasLogs _ _
        (boot_worker-HasLogs o _
          (on_shared-HasLogs (note_restart reason) m (λ s g. note_restart-IsShared reason g) h))
        (λ a g. wait_for_worker_ack-HasLogs env keeps a g)

  pub ensure_watchdog_started-HasLogs :
      (m : Machine bus cdc) → HasLogs m → HasLogs (ensure_watchdog_started m)
  unfolding ensure_watchdog_started
  ensure_watchdog_started-HasLogs m h =
      if_both HasLogs (leb Stage.watchdog_boot m.shared.ctl.system_stage) h
        (on_device-HasLogs _ _ (say-HasLogs _ _ (stage-HasLogs _ _ h)))
