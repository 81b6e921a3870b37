-- ===== src/Worker/Served.antt =====
-- worker_rtos/main.c: a job as one round of the main loop serves it.
use sg2002_kraken.Base.{ℕ, ◌+◌, ◌%◌, ◌^◌, ◌<◌, ◌≡◌, ◌∙◌, arith, bit_xor}
use sg2002_kraken.Kraken.Cmd
use sg2002_kraken.Kraken.FaultSource
use sg2002_kraken.Kraken.TraceCode
use sg2002_kraken.Kraken.Structs.{Shared}
use sg2002_kraken.Ctl.{ctl_trace_log}
use sg2002_kraken.Worker.{Env, Phase, job_rounds, worker_round, serve_job, count_beat}
use sg2002_kraken.Worker.Job.{IsQuietAt, run_demo_job_full}
use sg2002_kraken.Worker.Commands.{switch_all}

-- The job is done from argument `arg0` and heartbeat `beat`.
pub record IsDone (arg0 beat : ℕ) (t : Shared) : Type 0 where
  pub beat_of : t.ctl.worker_heartbeat ≡ (beat + (1 + job_rounds)) % 2 ^ 32
  pub result : t.ctl.worker_result ≡ bit_xor 49999 arg0

serve_job-IsDone :
    (env : Env) (s : Shared)
    → ((j : ℕ) → IsQuietAt env j)
    → s.ctl.worker_cmd ≡ Cmd.run_job
    → s.ctl.worker_heartbeat < 2 ^ 32
    → IsDone (s.ctl.worker_arg0) (s.ctl.worker_heartbeat) (serve_job env (count_beat s))
unfolding serve_job count_beat ctl_trace_log
serve_job-IsDone env s quiet cmd h =
    let begun =
      ctl_trace_log FaultSource.worker TraceCode.worker_cmd_run_job s.ctl.worker_arg0
        s.ctl.worker_arg1 (count_beat s) in
    let done = run_demo_job_full env begun quiet cmd (omega arith) in
    record { beat_of = done.0 ∙ omega arith; result = done.1 }

-- One round serves CMD_RUN_JOB, if the other cores leave the job's fields alone.
pub worker_round-IsDone :
    (env : Env) (s : Shared)
    → ((j : ℕ) → IsQuietAt env j)
    → s.ctl.worker_cmd ≡ Cmd.run_job
    → s.ctl.worker_heartbeat < 2 ^ 32
    → IsDone (s.ctl.worker_arg0) (s.ctl.worker_heartbeat) ((worker_round env s).1)
unfolding worker_round
worker_round-IsDone env s quiet cmd h =
    switch_all (λ (r : Phase × Shared). IsDone (s.ctl.worker_arg0) (s.ctl.worker_heartbeat) (r.1))
      (s.ctl.worker_cmd) (λ e. absurd (omega (arith, e, cmd))) (λ e. absurd (omega (arith, e, cmd)))
      (λ e. serve_job-IsDone env s quiet cmd h) (λ e. absurd (omega (arith, e, cmd)))
      (λ e. absurd (omega (arith, e, cmd))) (λ p q r t. absurd (r cmd))
