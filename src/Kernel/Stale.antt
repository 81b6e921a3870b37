-- ===== src/Kernel/Stale.antt =====
-- kernel/main.c: when the supervisor leaves the worker alone.
use sg2002_kraken.Base.{
  ℕ, zero, suc, ◌+◌, ◌-◌, ◌^◌, ◌≤◌, ◌<◌, ◌≡◌, ◌≢◌, refl, sym, ap, ◌∙◌, false, inl, inr, arith,
  Bool-cases, List, [], ◌∷◌, bit, bit_and, bit_and_pow, ◌!=◌, ◌==◌, u32, ltb,
}
use sg2002_kraken.Mmio.{Bus}
use sg2002_kraken.Kraken.Config.{worker_stale_spins}
use sg2002_kraken.Kraken.CoreState
use sg2002_kraken.Kraken.SysFlag
use sg2002_kraken.Kraken.Options.{Options}
use sg2002_kraken.Kraken.Structs.{SharedCtrl, Shared}
use sg2002_kraken.UsbSerial.{Cdc, usb_serial_read}
use sg2002_kraken.Ctl.{ctl_trace_log, ctl_next_cmd_seq, ctl_clear_platform_error}
use sg2002_kraken.Kernel.{Env, Machine, send_worker_cmd, on_shared, on_ctl, on_device, trace, say}
use sg2002_kraken.Kernel.Editor.{Command, edit}
use sg2002_kraken.Kernel.Commands.{run_command, run_commands, handle_console, poll}
use sg2002_kraken.Kernel.Supervisor.{
  Watch, Supervisor, beat, pet, serve, note_beat, check_worker, supervisor_round, supervise,
}
use sg2002_kraken.Kernel.Invariant.{AllEnds, AllEnds-then, and_then-AllEnds}

-- What the supervisor looks at of the worker, and the flags, are the same.
pub record SameWorker (c d : SharedCtrl) : Type 0 where
  pub state : d.worker_state ≡ c.worker_state
  pub heartbeat : d.worker_heartbeat ≡ c.worker_heartbeat
  pub restarts : d.worker_restart_count ≡ c.worker_restart_count
  pub flags : d.system_flags ≡ c.system_flags

SameWorker-refl : (c : SharedCtrl) → SameWorker c c
SameWorker-refl c = record { state = refl; heartbeat = refl; restarts = refl; flags = refl }

pub SameWorker-trans : {c d e : SharedCtrl} → SameWorker c d → SameWorker d e → SameWorker c e
SameWorker-trans h g = record {
  state = g.state ∙ h.state;
  heartbeat = g.heartbeat ∙ h.heartbeat;
  restarts = g.restarts ∙ h.restarts;
  flags = g.flags ∙ h.flags;
}

-- No alarm and no fault.
abbrev pub Calm : SharedCtrl → Type 0
Calm c = (bit c.system_flags 31 ≡ 0) × (c.worker_state ≢ CoreState.fault)

pub flag_off :
    (flags : ℕ) → bit flags 31 ≡ 0 → (bit_and flags SysFlag.watchdog_timeout != 0) ≡ false
flag_off flags h = ground (arith, bit_and_pow 31 flags)

-- What is the same of the worker is as calm as before.
pub SameWorker-Calm : {c d : SharedCtrl} → SameWorker c d → Calm c → Calm d
SameWorker-Calm same calm =
    (ap (λ (v : ℕ). bit v 31) same.flags ∙ calm.0, λ e. calm.1 (sym same.state ∙ e))

note_beat-stale :
    (c : SharedCtrl) (w : Watch) → w.stale < 2 ^ 32 - 1 → (note_beat c w).stale ≤ w.stale + 1
unfolding note_beat
note_beat-stale c w h = ground arith

module _ {bus : Bus} {cdc : Cdc} where
  run_command-SameWorker :
      (k : Command) (m : Machine bus cdc) → SameWorker (m.shared.ctl) ((run_command k m).shared.ctl)
  unfolding run_command say on_ctl on_shared send_worker_cmd ctl_next_cmd_seq
  run_command-SameWorker Command.status m = record {
    state = refl;
    heartbeat = refl;
    restarts = refl;
    flags = refl;
  }
  run_command-SameWorker Command.cpu m = record {
    state = refl;
    heartbeat = refl;
    restarts = refl;
    flags = refl;
  }
  run_command-SameWorker Command.trap m = record {
    state = refl;
    heartbeat = refl;
    restarts = refl;
    flags = refl;
  }
  run_command-SameWorker Command.faults m = record {
    state = refl;
    heartbeat = refl;
    restarts = refl;
    flags = refl;
  }
  run_command-SameWorker Command.trace m = record {
    state = refl;
    heartbeat = refl;
    restarts = refl;
    flags = refl;
  }
  run_command-SameWorker Command.persist m = record {
    state = refl;
    heartbeat = refl;
    restarts = refl;
    flags = refl;
  }
  run_command-SameWorker Command.persist_clear m = record {
    state = refl;
    heartbeat = refl;
    restarts = refl;
    flags = refl;
  }
  run_command-SameWorker Command.run m = record {
    state = refl;
    heartbeat = refl;
    restarts = refl;
    flags = refl;
  }
  run_command-SameWorker Command.panic m = record {
    state = refl;
    heartbeat = refl;
    restarts = refl;
    flags = refl;
  }
  run_command-SameWorker Command.stop m = record {
    state = refl;
    heartbeat = refl;
    restarts = refl;
    flags = refl;
  }
  run_command-SameWorker Command.unknown m = record {
    state = refl;
    heartbeat = refl;
    restarts = refl;
    flags = refl;
  }
  run_command-SameWorker Command.blank m = SameWorker-refl (m.shared.ctl)

  run_commands-SameWorker :
      (ks : List Command) (m : Machine bus cdc)
      → SameWorker (m.shared.ctl) ((run_commands ks m).shared.ctl)
  unfolding run_commands
  run_commands-SameWorker [] m = SameWorker-refl (m.shared.ctl)
  run_commands-SameWorker (k ∷ ks) m =
      SameWorker-trans (run_command-SameWorker k m) (run_commands-SameWorker ks (run_command k m))

  handle_console-SameWorker :
      (m : Machine bus cdc) → SameWorker (m.shared.ctl) ((handle_console m).shared.ctl)
  unfolding handle_console on_ctl
  handle_console-SameWorker m =
      let (bytes, usb') = usb_serial_read 32 m.shared.ctl.usb in
      let (commands, line') = edit bytes m.line in
      let same =
        run_commands-SameWorker commands
          (on_ctl (λ ctl. record ctl { usb = usb' }) (record m { line = line' })) in
      record {
        state = same.state;
        heartbeat = same.heartbeat;
        restarts = same.restarts;
        flags = same.flags;
      }

  poll-SameWorker : (m : Machine bus cdc) → SameWorker (m.shared.ctl) ((poll m).shared.ctl)
  unfolding poll on_ctl
  poll-SameWorker m = record { state = refl; heartbeat = refl; restarts = refl; flags = refl }

  pet-SameWorker :
      (o : Options) (m : Machine bus cdc) → SameWorker (m.shared.ctl) ((pet o m).shared.ctl)
  unfolding pet beat on_ctl on_device trace on_shared ctl_trace_log
  pet-SameWorker o m =
      elim (Bool-cases (bit_and (u32 (m.shared.ctl.kernel_heartbeat + 1)) 0x1ffff == 0)) [
        | inl e ↦ rw e (record { state = refl; heartbeat = refl; restarts = refl; flags = refl })
        | inr e ↦ rw e (record { state = refl; heartbeat = refl; restarts = refl; flags = refl })
      ]

  pub serve-SameWorker :
      (o : Options) (m : Machine bus cdc) → SameWorker (m.shared.ctl) ((serve o m).shared.ctl)
  unfolding serve
  serve-SameWorker o m =
      SameWorker-trans (pet-SameWorker o m)
        (SameWorker-trans (poll-SameWorker (pet o m)) (handle_console-SameWorker (poll (pet o m))))

  -- The supervisor goes on, with the worker not restarted, no alarm and no fault.
  pub record GoesOn (most : ℕ) (m : Machine bus cdc) (s : Supervisor bus cdc) : Type 0 where
    pub stale : s.0.stale ≤ most
    pub restarts : s.1.shared.ctl.worker_restart_count ≡ m.shared.ctl.worker_restart_count
    pub calm : Calm (s.1.shared.ctl)

  check_worker-GoesOn :
      (o : Options) (env : Env) (w : Watch) (m : Machine bus cdc)
      → Calm (m.shared.ctl)
      → w.stale ≤ worker_stale_spins
      → AllEnds (λ _. ⊥) (GoesOn w.stale m) (check_worker o env w m)
  unfolding check_worker on_ctl ctl_clear_platform_error
  check_worker-GoesOn o env w m calm small =
      rw (no_fault, fresh)
        (elim (Bool-cases (w.stale == 0)) [
          | inl e ↦ rw e (record { stale = omega arith; restarts = refl; calm = (calm.0, calm.1) })
          | inr e ↦ rw e (record { stale = omega arith; restarts = refl; calm = calm })
        ])
    where
      no_fault : (m.shared.ctl.worker_state == CoreState.fault) ≡ false
      no_fault = ground (arith, calm.1)

      fresh : ltb worker_stale_spins w.stale ≡ false
      fresh = ground arith

  supervisor_round-GoesOn :
      (o : Options) (env : Env) (w : Watch) (m : Machine bus cdc)
      → Calm (m.shared.ctl)
      → w.stale < worker_stale_spins
      → AllEnds (λ _. ⊥) (GoesOn (w.stale + 1) m) (supervisor_round o env (w, m))
  unfolding supervisor_round
  supervisor_round-GoesOn o env w m calm small =
      let served = serve-SameWorker o m in
      let w' = note_beat ((serve o m).shared.ctl) w in
      let counted = note_beat-stale ((serve o m).shared.ctl) w (omega arith) in
      rw (flag_off m.shared.ctl.system_flags (calm.0)) (
        AllEnds-then (λ _. ⊥) (GoesOn (w'.stale) (serve o m)) (GoesOn (w.stale + 1) m)
          (check_worker o env w' (serve o m))
          (check_worker-GoesOn o env w' (serve o m) (SameWorker-Calm served calm) (omega arith))
          (λ s g. record {
            stale = omega (arith, g.stale, counted);
            restarts = g.restarts ∙ served.restarts;
            calm = g.calm;
          }))

-- From a page with no alarm and no fault of the worker, while the other cores raise neither on
-- such a page and leave the restart count alone, the supervisor runs through any number of rounds
-- that its counter of silent rounds has left up to 85000, whatever the worker's heartbeat does,
-- whatever is typed on the console and whatever the devices answer: it does not restart the
-- worker, and it raises no alarm and reports no fault itself.
pub supervise_no_false_restart :
    (bus : Bus) (cdc : Cdc) (o : Options) (env : ℕ → (Shared → Shared) × Env) (n i : ℕ) (w : Watch)
    (m : Machine bus cdc)
    → ((j : ℕ) (s : Shared)
        → Calm (s.ctl)
        → Calm (((env j).0 s).ctl)
          × (((env j).0 s).ctl.worker_restart_count ≡ s.ctl.worker_restart_count))
    → Calm (m.shared.ctl)
    → w.stale + n ≤ worker_stale_spins
    → AllEnds (λ _. ⊥) (GoesOn (w.stale + n) m) (supervise o env n i (w, m))
unfolding supervise
supervise_no_false_restart bus cdc o env zero i w m quiet calm most = record {
  stale = omega arith;
  restarts = refl;
  calm = calm;
}
supervise_no_false_restart bus cdc o env (suc n) i w m quiet calm most =
    let m' = on_shared ((env i).0) m in
    let before = quiet i (m.shared) calm in
    and_then-AllEnds (λ _. ⊥) (GoesOn (w.stale + 1) m') (GoesOn (w.stale + suc n) m)
      (supervisor_round o ((env i).1) (w, m')) (supervise o env n (i + 1))
      (supervisor_round-GoesOn o ((env i).1) w m' (unfold on_shared in before.0) (omega arith))
      (λ s g.
        AllEnds-then (λ _. ⊥) _ (GoesOn (w.stale + suc n) m) (supervise o env n (i + 1) s)
          (supervise_no_false_restart bus cdc o env n (i + 1) (s.0) (s.1) quiet g.calm
            (omega (arith, g.stale)))
          (λ t f. record {
            stale = omega (arith, f.stale, g.stale);
            restarts = f.restarts ∙ g.restarts ∙ unfold on_shared in before.1;
            calm = f.calm;
          }))
