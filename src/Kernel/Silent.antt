-- ===== src/Kernel/Silent.antt =====
-- kernel/main.c: a worker that hangs without a fault.
use sg2002_kraken.Base.{
  ℕ, zero, suc, ◌+◌, ◌≤◌, ◌<◌, ◌≡◌, ◌≢◌, ◌⊎◌, refl, sym, ap, ◌∙◌, false, inl, inr, arith, ◌+◌, ◌==◌,
  u32, ltb,
}
use sg2002_kraken.Mmio.{Bus}
use sg2002_kraken.Kraken.Config.{worker_stale_spins}
use sg2002_kraken.Kraken.CoreState
use sg2002_kraken.Kraken.Options.{Options}
use sg2002_kraken.Kraken.Structs.{SharedCtrl, Shared}
use sg2002_kraken.UsbSerial.{Cdc}
use sg2002_kraken.Ctl.{ctl_clear_platform_error}
use sg2002_kraken.Kernel.{Env, Machine, running, on_shared, on_ctl}
use sg2002_kraken.Kernel.Supervisor.{
  Watch, Supervisor, serve, note_beat, check_worker, supervisor_round, supervise,
}
use sg2002_kraken.Kernel.Invariant.{AllEnds, AllEnds-then, and_then-AllEnds}
use sg2002_kraken.Kernel.Stale.{Calm, SameWorker-Calm, flag_off, serve-SameWorker}
use sg2002_kraken.Kernel.Restarts.{Panicked}
use sg2002_kraken.Kernel.Revive.{BeatSeen, note_beat-BeatSeen, Revived, supervisor_round_restarts}

-- A round that sees a new heartbeat.
note_beat-fresh :
    (c : SharedCtrl) (w : Watch)
    → c.worker_heartbeat ≢ w.last_worker_hb
    → note_beat c w ≡ record { stale = 0; last_worker_hb = c.worker_heartbeat }
unfolding note_beat
note_beat-fresh c w new = ground arith

module _ {bus : Bus} {cdc : Cdc} where
  -- A round that leaves the count of the silent rounds at `count`, the worker as calm as it was.
  record Counts (count : ℕ) (m : Machine bus cdc) (s : Supervisor bus cdc) : Type 0 where
    stale : s.0.stale ≡ count
    silent : BeatSeen (s.0) (s.1.shared.ctl)
    restarts : s.1.shared.ctl.worker_restart_count ≡ m.shared.ctl.worker_restart_count
    calm : Calm (s.1.shared.ctl)

  check_worker-Counts :
      (o : Options) (env : Env) (w : Watch) (m : Machine bus cdc)
      → m.shared.ctl.worker_state ≢ CoreState.fault
      → 0 < w.stale
      → w.stale ≤ worker_stale_spins
      → check_worker o env w m ≡ running (w, m)
  unfolding check_worker
  check_worker-Counts o env w m ok pos small = rw (no_fault, fresh, counting) refl
    where
      no_fault : (m.shared.ctl.worker_state == CoreState.fault) ≡ false
      no_fault = ground arith

      fresh : ltb worker_stale_spins w.stale ≡ false
      fresh = ground arith

      counting : (w.stale == 0) ≡ false
      counting = ground arith

  supervisor_round-Counts :
      (o : Options) (env : Env) (w : Watch) (m : Machine bus cdc)
      → Calm (m.shared.ctl)
      → BeatSeen w (m.shared.ctl)
      → w.stale < worker_stale_spins
      → AllEnds Panicked (Counts (w.stale + 1) m) (supervisor_round o env (w, m))
  unfolding supervisor_round
  supervisor_round-Counts o env w m calm silent small =
      let served = serve-SameWorker o m in
      let (counted, still) =
        note_beat-BeatSeen ((serve o m).shared.ctl) w (served.heartbeat ∙ silent) (omega arith) in
      rw
        (
          flag_off m.shared.ctl.system_flags (calm.0),
          check_worker-Counts o env (note_beat ((serve o m).shared.ctl) w) (serve o m)
              (λ e. calm.1 (sym served.state ∙ e)) (omega (arith, counted))
              (omega (arith, counted)),
        )
        (record {
          stale = counted;
          silent = still;
          restarts = served.restarts;
          calm = SameWorker-Calm served calm;
        })

  check_worker-fresh :
      (o : Options) (env : Env) (beat : ℕ) (m : Machine bus cdc)
      → Calm (m.shared.ctl)
      → m.shared.ctl.worker_heartbeat ≡ beat
      → AllEnds Panicked
          (Counts 0 m)
          (check_worker o env (record { stale = 0; last_worker_hb = beat }) m)
  unfolding check_worker on_ctl ctl_clear_platform_error
  check_worker-fresh o env beat m calm seen =
      rw no_fault (record { stale = refl; silent = seen; restarts = refl; calm = (calm.0, calm.1) })
    where
      no_fault : (m.shared.ctl.worker_state == CoreState.fault) ≡ false
      no_fault = ground (arith, calm.1)

  supervisor_round-fresh :
      (o : Options) (env : Env) (w : Watch) (m : Machine bus cdc)
      → Calm (m.shared.ctl)
      → m.shared.ctl.worker_heartbeat ≢ w.last_worker_hb
      → AllEnds Panicked (Counts 0 m) (supervisor_round o env (w, m))
  unfolding supervisor_round
  supervisor_round-fresh o env w m calm new =
      let served = serve-SameWorker o m in
      rw
        (
          flag_off m.shared.ctl.system_flags (calm.0),
          note_beat-fresh ((serve o m).shared.ctl) w (λ e. new (sym served.heartbeat ∙ e)),
        )
        (AllEnds-then Panicked (Counts 0 (serve o m)) (Counts 0 m)
          (check_worker o env
            (record { stale = 0; last_worker_hb = (serve o m).shared.ctl.worker_heartbeat })
            (serve o m))
          (check_worker-fresh o env _ (serve o m) (SameWorker-Calm served calm) refl)
          (λ s g. record {
            stale = g.stale;
            silent = g.silent;
            restarts = g.restarts ∙ served.restarts;
            calm = g.calm;
          }))

-- The rounds that the counter has left for a worker whose heartbeat has been seen.
silent_rounds :
    (bus : Bus) (cdc : Cdc) (o : Options) (env : ℕ → (Shared → Shared) × Env) (n i : ℕ) (w : Watch)
    (m : Machine bus cdc)
    → ((j : ℕ) (s : Shared)
        → Calm (s.ctl)
        → Calm (((env j).0 s).ctl)
          × (((env j).0 s).ctl.worker_heartbeat ≡ s.ctl.worker_heartbeat)
          × (((env j).0 s).ctl.worker_restart_count ≡ s.ctl.worker_restart_count))
    → ((j k : ℕ) (s : Shared)
        → ((env j).1 k s).ctl.worker_restart_count ≡ s.ctl.worker_restart_count)
    → Calm (m.shared.ctl)
    → BeatSeen w (m.shared.ctl)
    → w.stale + n ≡ worker_stale_spins
    → AllEnds Panicked (Revived m) (supervise o env (suc n) i (w, m))
unfolding supervise on_shared
silent_rounds bus cdc o env zero i w m quiet keeps calm silent e =
    let m' = on_shared ((env i).0) m in
    let before = quiet i (m.shared) calm in
    and_then-AllEnds Panicked (Revived m') (Revived m) (supervisor_round o ((env i).1) (w, m'))
      (supervise o env 0 (i + 1))
      (supervisor_round_restarts bus cdc o ((env i).1) w m' (keeps i) (before.0.0)
        (inr (before.1 ∙ silent, omega arith, omega arith)))
      (λ s g. record {
        stale = g.stale;
        restarts = g.restarts ∙ ap (λ (k : ℕ). u32 (k + 1)) before.2;
      })
silent_rounds bus cdc o env (suc n) i w m quiet keeps calm silent e =
    let m' = on_shared ((env i).0) m in
    let before = quiet i (m.shared) calm in
    and_then-AllEnds Panicked (Counts (w.stale + 1) m') (Revived m)
      (supervisor_round o ((env i).1) (w, m')) (supervise o env (suc n) (i + 1))
      (supervisor_round-Counts o ((env i).1) w m' (before.0) (before.1 ∙ silent) (omega arith))
      (λ s g.
        AllEnds-then Panicked (Revived (s.1)) (Revived m) (supervise o env (suc n) (i + 1) s)
          (silent_rounds bus cdc o env n (i + 1) (s.0) (s.1) quiet keeps (g.calm) (g.silent)
            (omega (arith, g.stale)))
          (λ t f. record {
            stale = f.stale;
            restarts = f.restarts ∙ ap (λ (k : ℕ). u32 (k + 1)) (g.restarts ∙ before.2);
          }))

-- A worker that hangs without a fault is restarted: from a page with no alarm and no fault of the
-- worker, while the other cores raise neither on such a page and leave the heartbeat and the
-- restart count alone, after the rounds that the supervisor's counter has left up to 85000 and
-- one more, or after 85002 rounds if the heartbeat is new to the supervisor, the worker has been
-- restarted once and the count begins anew, or the kernel has panicked over the restart: for want
-- of the worker's image, of its core's release or of its answer.
pub supervise_silent_worker :
    (bus : Bus) (cdc : Cdc) (o : Options) (env : ℕ → (Shared → Shared) × Env) (n i : ℕ) (w : Watch)
    (m : Machine bus cdc)
    → ((j : ℕ) (s : Shared)
        → Calm (s.ctl)
        → Calm (((env j).0 s).ctl)
          × (((env j).0 s).ctl.worker_heartbeat ≡ s.ctl.worker_heartbeat)
          × (((env j).0 s).ctl.worker_restart_count ≡ s.ctl.worker_restart_count))
    → ((j k : ℕ) (s : Shared)
        → ((env j).1 k s).ctl.worker_restart_count ≡ s.ctl.worker_restart_count)
    → Calm (m.shared.ctl)
    → BeatSeen w (m.shared.ctl) × (w.stale + n ≡ worker_stale_spins)
      ⊎ (m.shared.ctl.worker_heartbeat ≢ w.last_worker_hb) × (n ≡ worker_stale_spins + 1)
    → AllEnds Panicked (Revived m) (supervise o env (suc n) i (w, m))
unfolding supervise on_shared
supervise_silent_worker bus cdc o env n i w m quiet keeps calm (inl (silent, e)) =
    silent_rounds bus cdc o env n i w m quiet keeps calm silent e
supervise_silent_worker bus cdc o env zero i w m quiet keeps calm (inr (new, e)) =
    absurd (omega (arith, e))
supervise_silent_worker bus cdc o env (suc n) i w m quiet keeps calm (inr (new, e)) =
    let m' = on_shared ((env i).0) m in
    let before = quiet i (m.shared) calm in
    and_then-AllEnds Panicked (Counts 0 m') (Revived m) (supervisor_round o ((env i).1) (w, m'))
      (supervise o env (suc n) (i + 1))
      (supervisor_round-fresh o ((env i).1) w m' (before.0) (λ q. new (sym before.1 ∙ q)))
      (λ s g.
        AllEnds-then Panicked (Revived (s.1)) (Revived m) (supervise o env (suc n) (i + 1) s)
          (silent_rounds bus cdc o env n (i + 1) (s.0) (s.1) quiet keeps (g.calm) (g.silent)
            (omega (arith, g.stale, e)))
          (λ t f. record {
            stale = f.stale;
            restarts = f.restarts ∙ ap (λ (k : ℕ). u32 (k + 1)) (g.restarts ∙ before.2);
          }))
