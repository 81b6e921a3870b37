-- ===== src/Kernel/Offer.antt =====
-- kernel/main.c: how the release of the worker ends.
use sg2002_kraken.Base.{ℕ, ◌≡◌, ◌⊎◌, false, Bool-cases, refl, inl, inr, false, ◌!=◌}
use sg2002_kraken.Mmio.{Bus}
use sg2002_kraken.Kraken.Config.{worker_load_addr}
use sg2002_kraken.Kraken.Cmd
use sg2002_kraken.Kraken.ReleaseStatus
use sg2002_kraken.Kraken.Stage
use sg2002_kraken.Kraken.SysFlag
use sg2002_kraken.Kraken.Options.{Options}
use sg2002_kraken.Kraken.Structs.{SharedCtrl}
use sg2002_kraken.Image.{sg2002_image_present}
use sg2002_kraken.Release.{sg2002_release_worker_core}
use sg2002_kraken.UsbSerial.{Cdc}
use sg2002_kraken.Ctl.{ctl_set_stage, ctl_fault_log, ctl_next_cmd_seq, ctl_clear_platform_error}
use sg2002_kraken.Kernel.{
  Machine, send_worker_cmd, note_panic, kernel_panic, on_shared, on_ctl, on_device, say,
  image_missing_code, release_failed_code,
}
use sg2002_kraken.Kernel.Restart.{maybe_stage_worker, offer_worker, release_failed, boot_worker}
use sg2002_kraken.Kernel.Invariant.{if_both, AllEnds}

-- The kernel waits, with its boot command in the slot.
pub record IsOffered (c : SharedCtrl) : Type 0 where
  pub ack : c.worker_boot_ack ≡ 0
  pub cmd : c.worker_cmd ≡ Cmd.boot

-- The kernel has panicked for want of an image of the worker, which is not there, or since its core
-- is not released.
pub record NoWorker {bus : Bus} {cdc : Cdc} (t : Machine bus cdc) : Type 0 where
  pub stage : t.shared.ctl.system_stage ≡ Stage.panic
  pub reason :
      (t.shared.ctl.reset_reason ≡ image_missing_code)
        × (sg2002_image_present t.mem worker_load_addr ≡ false)
      ⊎ (t.shared.ctl.reset_reason ≡ release_failed_code)

module _ {bus : Bus} {cdc : Cdc} where
  offer_worker-IsOffered : (m : Machine bus cdc) → IsOffered ((offer_worker m).shared.ctl)
  unfolding offer_worker say on_ctl on_shared on_device send_worker_cmd ctl_next_cmd_seq
      ctl_set_stage
  offer_worker-IsOffered m = record { ack = refl; cmd = refl }

  missing-NoWorker :
      (m : Machine bus cdc)
      → sg2002_image_present (m.mem) worker_load_addr ≡ false
      → NoWorker (kernel_panic image_missing_code SysFlag.worker_image_missing m)
  unfolding kernel_panic say on_shared note_panic ctl_set_stage ctl_fault_log
  missing-NoWorker m none = record { stage = refl; reason = inl (refl, none) }

  release_failed-NoWorker : (status : ℕ) (m : Machine bus cdc) → NoWorker (release_failed status m)
  unfolding release_failed kernel_panic say on_shared note_panic ctl_set_stage ctl_fault_log
  release_failed-NoWorker status m = record { stage = refl; reason = inr refl }

  pub boot_worker-IsOffered :
      (o : Options) (m : Machine bus cdc)
      → AllEnds NoWorker (λ (t : Machine bus cdc). IsOffered (t.shared.ctl)) (boot_worker o m)
  unfolding boot_worker on_ctl ctl_clear_platform_error
  boot_worker-IsOffered o m =
      let begun = maybe_stage_worker o (on_shared (ctl_set_stage Stage.worker_prep) m) in
      let status =
        (sg2002_release_worker_core bus o worker_load_addr (offer_worker begun).device).0 in
      let offered = offer_worker-IsOffered begun in
      elim (Bool-cases (sg2002_image_present begun.mem worker_load_addr)) [
        | inl e ↦ rw e (
            if_both (AllEnds NoWorker (λ (t : Machine bus cdc). IsOffered (t.shared.ctl)))
              (status != ReleaseStatus.ok) (release_failed-NoWorker status _)
              (record { ack = offered.ack; cmd = offered.cmd }))
        | inr e ↦ rw e (missing-NoWorker begun e)
      ]
