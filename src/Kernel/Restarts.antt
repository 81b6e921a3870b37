-- ===== src/Kernel/Restarts.antt =====
-- kernel/main.c: a restart of the worker counts one restart, or ends in a panic.
use sg2002_kraken.Base.{
  ℕ, zero, suc, ◌+◌, ◌≡◌, ◌⊎◌, refl, ◌∙◌, inl, inr, Bool-cases, Option-cases, not, ◌||◌, ◌+◌, ◌!=◌,
  u32, [], ◌∷◌,
}
use sg2002_kraken.Mmio.{Bus}
use sg2002_kraken.Kraken.Config.{
  worker_ack_spins, worker_load_addr, worker_staging_addr, worker_image_max_bytes,
}
use sg2002_kraken.Kraken.ImageKind
use sg2002_kraken.Kraken.ReleaseStatus
use sg2002_kraken.Kraken.Stage
use sg2002_kraken.Kraken.SysFlag
use sg2002_kraken.Kraken.Options.{Options}
use sg2002_kraken.Kraken.Structs.{Shared}
use sg2002_kraken.Image.{footer_size, sg2002_image_present, sg2002_validate_staged_image}
use sg2002_kraken.Release.{sg2002_release_worker_core}
use sg2002_kraken.UsbSerial.{Cdc}
use sg2002_kraken.Console.{text}
use sg2002_kraken.Ctl.{
  ctl_set_stage, ctl_trace_log, ctl_fault_log, ctl_next_cmd_seq, ctl_set_platform_error,
  ctl_clear_platform_error,
}
use sg2002_kraken.Kernel.{
  Env, Machine, Run, running, stopped, send_worker_cmd, note_panic, note_restart, kernel_panic,
  on_shared, on_ctl, on_device, say, image_missing_code, release_failed_code, ack_timeout_code,
}
use sg2002_kraken.Kernel.Restart.{
  maybe_stage_worker, offer_worker, release_failed, boot_worker, wait_for_worker_ack,
  restart_worker,
}
use sg2002_kraken.Kernel.Invariant.{if_both, AllEnds, AllEnds-then, and_then-AllEnds}
use sg2002_kraken.Kernel.Ack.{seen, Acked, wait_for_worker_ack_lem}

-- The kernel has panicked over the restart: there was no image of the worker, its core was not
-- released, or it did not answer.
abbrev pub Panicked : {bus : Bus} {cdc : Cdc} → Machine bus cdc → Type 0
Panicked t =
    (t.shared.ctl.system_stage ≡ Stage.panic)
    × ((t.shared.ctl.reset_reason ≡ image_missing_code)
        ⊎ ((t.shared.ctl.reset_reason ≡ release_failed_code)
            ⊎ (t.shared.ctl.reset_reason ≡ ack_timeout_code)))

abbrev pub Restarts : {bus : Bus} {cdc : Cdc} → ℕ → Machine bus cdc → Type 0
Restarts n t = t.shared.ctl.worker_restart_count ≡ n

seen-restarts :
    (env : Env)
    → ((i : ℕ) (s : Shared) → (env i s).ctl.worker_restart_count ≡ s.ctl.worker_restart_count)
    → (i n : ℕ) (s : Shared)
    → (seen env i n s).ctl.worker_restart_count ≡ s.ctl.worker_restart_count
unfolding seen
seen-restarts env keeps i zero s = keeps i s
seen-restarts env keeps i (suc n) s = seen-restarts env keeps (i + 1) n (env i s) ∙ keeps i s

module _ {bus : Bus} {cdc : Cdc} where
  maybe_stage_worker-Restarts :
      (o : Options) (m : Machine bus cdc)
      → Restarts m.shared.ctl.worker_restart_count (maybe_stage_worker o m)
  unfolding maybe_stage_worker say on_ctl ctl_set_platform_error
  maybe_stage_worker-Restarts o m =
      elim (Bool-cases (not o.worker_staging || sg2002_image_present m.mem worker_load_addr)) [
        | inl e ↦ rw e refl
        | inr e ↦
            elim (Option-cases (
              sg2002_validate_staged_image m.mem worker_staging_addr
                (worker_image_max_bytes + footer_size) ImageKind.worker worker_load_addr
                worker_load_addr)) [ inl f ↦ rw (e, f) refl | inr (g, f) ↦ rw (e, f) refl ]
      ]

  offer_worker-Restarts :
      (m : Machine bus cdc) → Restarts m.shared.ctl.worker_restart_count (offer_worker m)
  unfolding offer_worker say on_ctl on_shared on_device send_worker_cmd ctl_next_cmd_seq
      ctl_set_stage
  offer_worker-Restarts m = refl

  prepared-Restarts :
      (m : Machine bus cdc)
      → Restarts m.shared.ctl.worker_restart_count (on_shared (ctl_set_stage Stage.worker_prep) m)
  unfolding on_shared ctl_set_stage
  prepared-Restarts m = refl

  missing-Panicked :
      (m : Machine bus cdc)
      → Panicked (kernel_panic image_missing_code SysFlag.worker_image_missing m)
  unfolding kernel_panic say on_shared note_panic ctl_set_stage ctl_fault_log
  missing-Panicked m = (refl, inl refl)

  release_failed-Panicked : (status : ℕ) (m : Machine bus cdc) → Panicked (release_failed status m)
  unfolding release_failed kernel_panic say on_shared note_panic ctl_set_stage ctl_fault_log
  release_failed-Panicked status m = (refl, inr (inl refl))

  boot_worker-Restarts :
      (o : Options) (m : Machine bus cdc)
      → AllEnds Panicked (Restarts m.shared.ctl.worker_restart_count) (boot_worker o m)
  unfolding boot_worker on_ctl ctl_clear_platform_error
  boot_worker-Restarts o m =
      let begun = maybe_stage_worker o (on_shared (ctl_set_stage Stage.worker_prep) m) in
      let status =
        (sg2002_release_worker_core bus o worker_load_addr (offer_worker begun).device).0 in
      if_both (AllEnds Panicked (Restarts m.shared.ctl.worker_restart_count))
        (not (sg2002_image_present begun.mem worker_load_addr)) (missing-Panicked begun)
        (if_both (AllEnds Panicked (Restarts m.shared.ctl.worker_restart_count))
          (status != ReleaseStatus.ok) (release_failed-Panicked status _)
          (offer_worker-Restarts begun
            ∙ maybe_stage_worker-Restarts o (on_shared (ctl_set_stage Stage.worker_prep) m)
            ∙ prepared-Restarts m))

  waiting-Restarts :
      (m : Machine bus cdc)
      → Restarts m.shared.ctl.worker_restart_count (
          say
            (text "[kernel] wait worker ack\n" ∷ [])
            (on_shared (ctl_set_stage Stage.worker_wait_ack) m))
  unfolding say on_shared ctl_set_stage
  waiting-Restarts m = refl

  wait_for_worker_ack-Restarts :
      (env : Env)
      → ((i : ℕ) (s : Shared) → (env i s).ctl.worker_restart_count ≡ s.ctl.worker_restart_count)
      → (m : Machine bus cdc)
      → AllEnds Panicked (Restarts m.shared.ctl.worker_restart_count) (wait_for_worker_ack env m)
  wait_for_worker_ack-Restarts env keeps m =
      go (wait_for_worker_ack env m) (wait_for_worker_ack_lem bus cdc env m)
    where
      go :
          (r : Run (Machine bus cdc) (Machine bus cdc))
          → Acked env worker_ack_spins 0
              ((say
                (text "[kernel] wait worker ack\n" ∷ [])
                (on_shared (ctl_set_stage Stage.worker_wait_ack) m)).shared)
              r
          → AllEnds Panicked (Restarts m.shared.ctl.worker_restart_count) r
      go (running t) (k, lt, up, before, online) =
          online.restarts ∙ seen-restarts env keeps 0 k _ ∙ waiting-Restarts m
      go (stopped t) (never, given_up) = (given_up.stage, inr (inr given_up.reason))

  noted-Restarts :
      (reason : ℕ) (m : Machine bus cdc)
      → Restarts (u32 (m.shared.ctl.worker_restart_count + 1)) (on_shared (note_restart reason) m)
  unfolding on_shared note_restart ctl_trace_log ctl_fault_log
  noted-Restarts reason m = refl

  pub restart_worker-Restarts :
      (o : Options) (env : Env)
      → ((i : ℕ) (s : Shared) → (env i s).ctl.worker_restart_count ≡ s.ctl.worker_restart_count)
      → (reason : ℕ) (m : Machine bus cdc)
      → AllEnds Panicked
          (Restarts (u32 (m.shared.ctl.worker_restart_count + 1)))
          (restart_worker o env reason m)
  unfolding restart_worker
  restart_worker-Restarts o env keeps reason m =
      let noted = on_shared (note_restart reason) m in
      and_then-AllEnds Panicked (Restarts noted.shared.ctl.worker_restart_count)
        (Restarts (u32 (m.shared.ctl.worker_restart_count + 1))) (boot_worker o noted)
        (wait_for_worker_ack env) (boot_worker-Restarts o noted)
        (λ t h.
          AllEnds-then Panicked (Restarts t.shared.ctl.worker_restart_count)
            (Restarts (u32 (m.shared.ctl.worker_restart_count + 1))) (wait_for_worker_ack env t)
            (wait_for_worker_ack-Restarts env keeps t) (λ t' g. g ∙ h ∙ noted-Restarts reason m))
