-- ===== src/Kernel/Revive.antt =====
-- kernel/main.c: when the supervisor restarts the worker.
use sg2002_kraken.Base.{
  ℕ, ◌+◌, ◌-◌, ◌^◌, ◌≤◌, ◌<◌, ◌≡◌, ◌⊎◌, refl, ap, ◌∙◌, true, false, inl, inr, arith, Bool-cases,
  ◌+◌, bit, ◌==◌, u32, ltb, set_bits, [], ◌∷◌,
}
use sg2002_kraken.Mmio.{Bus}
use sg2002_kraken.Kraken.Config.{worker_stale_spins}
use sg2002_kraken.Kraken.CoreState
use sg2002_kraken.Kraken.PlatErr
use sg2002_kraken.Kraken.SysFlag
use sg2002_kraken.Kraken.Options.{Options}
use sg2002_kraken.Kraken.Structs.{SharedCtrl, Shared}
use sg2002_kraken.UsbSerial.{Cdc}
use sg2002_kraken.Console.{text}
use sg2002_kraken.Kraken.TraceCode
use sg2002_kraken.Ctl.{ctl_trace_log, ctl_set_platform_error}
use sg2002_kraken.Kernel.{
  Env, Machine, on_shared, on_ctl, trace, say, worker_fault_code, worker_stale_code,
}
use sg2002_kraken.Kernel.Restart.{restart_worker}
use sg2002_kraken.Kernel.Supervisor.{
  Watch, Supervisor, serve, note_beat, restarted, check_worker, supervisor_round,
}
use sg2002_kraken.Kernel.Invariant.{AllEnds, AllEnds-then, and_then-AllEnds}
use sg2002_kraken.Kernel.Stale.{flag_off, serve-SameWorker}
use sg2002_kraken.Kernel.Restarts.{Panicked, Restarts, restart_worker-Restarts}

-- A worker that reports a fault, or that has been silent for too long.
abbrev pub NeedsRestart : Watch → SharedCtrl → Type 0
NeedsRestart w c = (c.worker_state ≡ CoreState.fault) ⊎ (worker_stale_spins < w.stale)

-- The heartbeat is the one that the supervisor has seen.
abbrev pub BeatSeen : Watch → SharedCtrl → Type 0
BeatSeen w c = c.worker_heartbeat ≡ w.last_worker_hb

pub note_beat-BeatSeen :
    (c : SharedCtrl) (w : Watch)
    → BeatSeen w c
    → w.stale < 2 ^ 32 - 1
    → ((note_beat c w).stale ≡ w.stale + 1) × BeatSeen (note_beat c w) c
unfolding note_beat
note_beat-BeatSeen c w e h = ground (arith, e)

module _ {bus : Bus} {cdc : Cdc} where
  -- The worker has been restarted once, and the count of silent rounds begins anew.
  pub record Revived (m : Machine bus cdc) (s : Supervisor bus cdc) : Type 0 where
    pub stale : s.0.stale ≡ 0
    pub restarts : s.1.shared.ctl.worker_restart_count ≡ u32 (m.shared.ctl.worker_restart_count + 1)

  restarted-Revived :
      (o : Options) (env : Env)
      → ((i : ℕ) (s : Shared) → (env i s).ctl.worker_restart_count ≡ s.ctl.worker_restart_count)
      → (reason : ℕ) (w : Watch) (m : Machine bus cdc)
      → AllEnds Panicked (Revived m) (restarted o env reason w m)
  unfolding restarted
  restarted-Revived o env keeps reason w m =
      and_then-AllEnds Panicked (Restarts (u32 (m.shared.ctl.worker_restart_count + 1))) (Revived m)
        (restart_worker o env reason m) _ (restart_worker-Restarts o env keeps reason m)
        (λ t h. record { stale = refl; restarts = h })

  faulty-Restarts :
      (a b : ℕ) (m : Machine bus cdc)
      → Restarts m.shared.ctl.worker_restart_count
          (say (text "[kernel] worker fault\n" ∷ []) (trace TraceCode.kernel_worker_fault a b m))
  unfolding say trace on_shared ctl_trace_log
  faulty-Restarts a b m = refl

  silent-Restarts :
      (a b : ℕ) (m : Machine bus cdc)
      → Restarts m.shared.ctl.worker_restart_count (
          say (text "[kernel] worker stale\n" ∷ []) (
            trace TraceCode.kernel_worker_stale a b (
              on_ctl
                (λ c.
                  ctl_set_platform_error PlatErr.worker_stale
                    (record c { system_flags = set_bits c.system_flags SysFlag.worker_stale }))
                m)))
  unfolding say trace on_shared on_ctl ctl_trace_log ctl_set_platform_error
  silent-Restarts a b m = refl

  Revived-of :
      (o : Options) (env : Env)
      → ((i : ℕ) (s : Shared) → (env i s).ctl.worker_restart_count ≡ s.ctl.worker_restart_count)
      → (reason : ℕ) (w : Watch) (m m' : Machine bus cdc)
      → Restarts m.shared.ctl.worker_restart_count m'
      → AllEnds Panicked (Revived m) (restarted o env reason w m')
  Revived-of o env keeps reason w m m' same =
      AllEnds-then Panicked (Revived m') (Revived m) (restarted o env reason w m')
        (restarted-Revived o env keeps reason w m')
        (λ s h. record {
          stale = h.stale;
          restarts = h.restarts ∙ ap (λ (k : ℕ). u32 (k + 1)) same;
        })

  check_worker-Revived :
      (o : Options) (env : Env)
      → ((i : ℕ) (s : Shared) → (env i s).ctl.worker_restart_count ≡ s.ctl.worker_restart_count)
      → (w : Watch) (m : Machine bus cdc) → NeedsRestart w (m.shared.ctl)
      → AllEnds Panicked (Revived m) (check_worker o env w m)
  unfolding check_worker
  check_worker-Revived o env keeps w m lost =
      elim (Bool-cases (m.shared.ctl.worker_state == CoreState.fault)) [
        | inl e ↦ rw e (Revived-of o env keeps worker_fault_code w m _ (faulty-Restarts _ _ m))
        | inr e ↦
            rw (e, silent e)
              (Revived-of o env keeps worker_stale_code w m _ (silent-Restarts _ _ m))
      ]
    where
      silent :
          (m.shared.ctl.worker_state == CoreState.fault) ≡ false
          → ltb worker_stale_spins w.stale ≡ true
      silent e = ground (arith, lost)

  -- A round without an alarm that finds the worker lost: it restarts the worker or panics.
  lost-Revived :
      (o : Options) (env : Env)
      → ((i : ℕ) (s : Shared) → (env i s).ctl.worker_restart_count ≡ s.ctl.worker_restart_count)
      → (w : Watch) (m : Machine bus cdc) → bit m.shared.ctl.system_flags 31 ≡ 0
      → NeedsRestart (note_beat ((serve o m).shared.ctl) w) (m.shared.ctl)
      → AllEnds Panicked (Revived m) (supervisor_round o env (w, m))
  unfolding supervisor_round
  lost-Revived o env keeps w m quiet lost =
      let served = serve-SameWorker o m in
      rw (flag_off m.shared.ctl.system_flags quiet) (
        AllEnds-then Panicked (Revived (serve o m)) (Revived m)
          (check_worker o env (note_beat ((serve o m).shared.ctl) w) (serve o m))
          (check_worker-Revived o env keeps _ (serve o m)
            (elim lost [ inl e ↦ inl (served.state ∙ e) | inr h ↦ inr h ]))
          (λ s g. record {
            stale = g.stale;
            restarts = g.restarts ∙ ap (λ (k : ℕ). u32 (k + 1)) served.restarts;
          }))

-- Where the other cores raise no alarm and leave the restart count alone, and the worker reports a
-- fault or has now been silent for more than 85000 rounds, the round restarts it once and begins
-- to count anew, or ends in a panic.
pub supervisor_round_restarts :
    (bus : Bus) (cdc : Cdc) (o : Options) (env : Env) (w : Watch) (m : Machine bus cdc)
    → ((i : ℕ) (s : Shared) → (env i s).ctl.worker_restart_count ≡ s.ctl.worker_restart_count)
    → bit m.shared.ctl.system_flags 31 ≡ 0
    → (m.shared.ctl.worker_state ≡ CoreState.fault)
      ⊎ BeatSeen w (m.shared.ctl) × (worker_stale_spins ≤ w.stale) × (w.stale < 2 ^ 32 - 1)
    → AllEnds Panicked (Revived m) (supervisor_round o env (w, m))
supervisor_round_restarts bus cdc o env w m keeps quiet (inl e) =
    lost-Revived o env keeps w m quiet (inl e)
supervisor_round_restarts bus cdc o env w m keeps quiet (inr (silent, long, fits)) =
    let served = serve-SameWorker o m in
    lost-Revived o env keeps w m quiet (
      inr (
        omega (
          arith,
          (note_beat-BeatSeen ((serve o m).shared.ctl) w (served.heartbeat ∙ silent) fits).0,
        )))
