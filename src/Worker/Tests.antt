-- ===== src/Worker/Tests.antt =====
-- Runs of the worker.
use sg2002_kraken.Base.{
  ℕ, ◌+◌, u32, ap, ◌<◌, ◌≡◌, refl, arith, inl, ◌++◌, ◌==◌, if◌then◌else◌, false, replicate, last_of,
}
use sg2002_kraken.Kraken.Config.{fault_log_size}
use sg2002_kraken.Kraken.Cmd
use sg2002_kraken.Kraken.CoreState
use sg2002_kraken.Kraken.Structs.{Shared}
use sg2002_kraken.Ctl.Logs.{IsShared, fault_view}
use sg2002_kraken.Ctl.Tests.{blank, blank-IsShared}
use sg2002_kraken.Worker.{Env, serving, run_demo_job, worker_round, worker_run}
use sg2002_kraken.Worker.Job.{IsQuietAt, run_demo_job_cancelled}
use sg2002_kraken.Worker.Commands.{worker_round_lem}
use sg2002_kraken.Worker.Unknown.{IsUnknown, IsKept, unknown_fault, worker_run_unknown}

abbrev alone : Env
alone i s = s

abbrev with_cmd : ℕ → Shared → Shared
with_cmd cmd s = record s { ctl = record (s.ctl) { worker_cmd = cmd } }

-- The kernel cancels before round 3.
abbrev cancelling : Env
cancelling i s = if i == 3 then with_cmd 3 s else s

alone-IsQuietAt : (j : ℕ) → IsQuietAt alone j
alone-IsQuietAt j = record {
  cmd = λ s. refl;
  arg0 = λ s. refl;
  beat = λ s. refl;
  result = λ s. refl;
}

cancelling-before : (j : ℕ) → j < 3 → (s : Shared) → cancelling j s ≡ s
cancelling-before j h s = let before : (j == 3) ≡ false = ground arith in rw before refl

cancelling-IsQuietAt : (j : ℕ) → j < 3 → IsQuietAt cancelling j
cancelling-IsQuietAt j h = record {
  cmd = λ s. ap (λ (t : Shared). t.ctl.worker_cmd) (cancelling-before j h s);
  arg0 = λ s. ap (λ (t : Shared). t.ctl.worker_arg0) (cancelling-before j h s);
  beat = λ s. ap (λ (t : Shared). t.ctl.worker_heartbeat) (cancelling-before j h s);
  result = λ s. ap (λ (t : Shared). t.ctl.worker_result) (cancelling-before j h s);
}

run_demo_job_cancelled_example :
    (run_demo_job cancelling (with_cmd 2 blank)).ctl.worker_heartbeat ≡ 3
run_demo_job_cancelled_example =
    run_demo_job_cancelled cancelling 3 (with_cmd 2 blank) cancelling-IsQuietAt (λ u. inl refl)
      (λ u. refl) (omega arith) refl (omega arith)

worker_round_example :
    let (phase, t) = worker_round alone (with_cmd 1 blank) in
    (phase ≡ serving)
    × (t.ctl.worker_state ≡ CoreState.idle)
    × (t.ctl.worker_cmd ≡ Cmd.none)
    × (t.ctl.worker_cmd_ack ≡ t.ctl.kernel_cmd_seq)
worker_round_example = worker_round_lem alone (with_cmd 1 blank)

-- CMD_CANCEL outside a job.
cancel-IsUnknown : IsUnknown Cmd.cancel
cancel-IsUnknown = record {
  not_none = λ e. absurd (omega (arith, e));
  not_boot = λ e. absurd (omega (arith, e));
  not_job = λ e. absurd (omega (arith, e));
  not_panic = λ e. absurd (omega (arith, e));
  not_stop = λ e. absurd (omega (arith, e));
}

-- A kernel in its loop: it counts its own beats.
abbrev beating : Env
beating i s = record s {
  ctl = record (s.ctl) { kernel_heartbeat = u32 (s.ctl.kernel_heartbeat + 1) };
}

beating-IsKept : (j : ℕ) → IsKept (beating j)
unfolding fault_view
beating-IsKept j = record {
  cmd = λ s. refl;
  seq = λ s. refl;
  ring = λ s. refl;
  shared = λ s h. record { faults = h.faults; traces = h.traces; page = h.page };
}

worker_run_unknown_example :
    let (phase, t) = worker_run beating (λ _. alone) 5 0 serving (with_cmd 3 blank) in
    (phase ≡ serving)
    × (fault_view (t.ctl)
        ≡ last_of fault_log_size
            (fault_view (blank.ctl) ++ replicate 5 (unknown_fault ((with_cmd 3 blank).ctl))))
    × IsShared t
unfolding fault_view
worker_run_unknown_example =
    worker_run_unknown beating (λ _. alone) 5 0 {s = with_cmd 3 blank} beating-IsKept
      (record {
        faults = blank-IsShared.faults;
        traces = blank-IsShared.traces;
        page = blank-IsShared.page;
      })
      cancel-IsUnknown
