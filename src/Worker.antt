-- ===== src/Worker.antt =====
-- The firmware of the worker core, worker_rtos/main.c. What the other cores write is visible at
-- each `ctl_invalidate`, and is an argument `env` of the functions that call it. Console output and
-- the cache operations are left out.
mod Tests
pub mod Job
pub mod Commands
pub mod Served
pub mod Entry
pub mod Unknown
use sg2002_kraken.Base.{ℕ, zero, suc, ◌+◌, Bool, ◌||◌, ◌==◌, if◌then◌else◌, bit_xor, u32}
use sg2002_kraken.Kraken.Config.{magic}
use sg2002_kraken.Kraken.Cmd
use sg2002_kraken.Kraken.CoreState
use sg2002_kraken.Kraken.FaultSource
use sg2002_kraken.Kraken.TraceCode
use sg2002_kraken.Kraken.Structs.{SharedCtrl, Shared}
use sg2002_kraken.Ctl.{Csrs, ctl_fault_log, ctl_trace_log, ctl_note_riscv_identity}

-- The writes of the other cores before round `i` of a loop.
abbrev pub Env : Type 0
Env = ℕ → Shared → Shared

-- In the main loop, or in the endless loop behind CMD_STOP.
pub data Phase : Type 0 where
  serving parked : Phase

abbrev pub job_rounds : ℕ
job_rounds = 50000

abbrev pub worker_slot : ℕ
worker_slot = 2

abbrev pub panic_code : ℕ
panic_code = 0xd00d0001

abbrev pub unknown_code : ℕ
unknown_code = 0xd00d0002

-- How the job ends, run through or cancelled.
pub finish_job : SharedCtrl → SharedCtrl
finish_job ctl = record ctl {
  worker_state = CoreState.idle;
  worker_cmd_ack = ctl.kernel_cmd_seq;
  worker_cmd = Cmd.none;
}

-- Round `i` of the job, where it is not cancelled.
pub job_round : ℕ → SharedCtrl → SharedCtrl
job_round i ctl = record ctl {
  worker_result = bit_xor i ctl.worker_arg0;
  worker_heartbeat = u32 (ctl.worker_heartbeat + 1);
  worker_cmd_ack = ctl.kernel_cmd_seq;
}

pub is_cancel : ℕ → Bool
is_cancel cmd = cmd == Cmd.cancel || cmd == Cmd.stop

-- The loop of `run_demo_job` at round `i`, with `left` rounds to go.
pub job_from : Env → (left i : ℕ) → Shared → Shared
unfolding finish_job job_round is_cancel
job_from env zero i s = record s { ctl = finish_job (s.ctl) }
job_from env (suc left) i s =
    let seen = env i s in
    let rest = job_from env left (i + 1) (record seen { ctl = job_round i (seen.ctl) }) in
    if is_cancel seen.ctl.worker_cmd then record seen { ctl = finish_job (seen.ctl) } else rest

pub run_demo_job : Env → Shared → Shared
unfolding job_from
run_demo_job env s =
    job_from env job_rounds 0
      (record s { ctl = record (s.ctl) { worker_state = CoreState.running } })

-- The part of `worker_main` before its loop.
pub worker_entry : Csrs → Shared → Shared
worker_entry csrs s =
    let noted = record s { ctl = ctl_note_riscv_identity csrs worker_slot (s.ctl) } in
    let traced = ctl_trace_log FaultSource.worker TraceCode.worker_entry 0 0 noted in
    record traced {
      ctl = record (traced.ctl) {
        worker_boot_ack = magic;
        worker_state = CoreState.idle;
        worker_cmd_ack = traced.ctl.kernel_cmd_seq;
      };
    }

-- The end of a command that leaves the slot as it is.
pub acknowledge : ℕ → Shared → Shared
acknowledge state s = record s {
  ctl = record (s.ctl) { worker_state = state; worker_cmd_ack = s.ctl.kernel_cmd_seq };
}

-- The cases of the switch, each on the page with its heartbeat counted.
pub serve_boot : Shared → Shared
unfolding finish_job
serve_boot s =
    let traced =
      ctl_trace_log FaultSource.worker TraceCode.worker_cmd_boot s.ctl.worker_arg0 s.ctl.worker_arg1
        s in
    record traced { ctl = finish_job (traced.ctl) }

pub serve_job : Env → Shared → Shared
unfolding run_demo_job
serve_job env s = run_demo_job env (
    ctl_trace_log FaultSource.worker TraceCode.worker_cmd_run_job s.ctl.worker_arg0
      s.ctl.worker_arg1 s)

pub serve_panic : Shared → Shared
unfolding acknowledge
serve_panic s = acknowledge CoreState.fault (
    ctl_fault_log FaultSource.worker panic_code s.ctl.worker_cmd s.ctl.kernel_cmd_seq (
      ctl_trace_log FaultSource.worker TraceCode.worker_cmd_panic s.ctl.worker_cmd
        s.ctl.kernel_cmd_seq s))

pub serve_stop : Shared → Shared
unfolding acknowledge
serve_stop s = acknowledge CoreState.offline (
    ctl_trace_log FaultSource.worker TraceCode.worker_cmd_stop s.ctl.worker_cmd s.ctl.kernel_cmd_seq
      s)

pub serve_unknown : Shared → Shared
unfolding acknowledge
serve_unknown s =
    acknowledge CoreState.fault
      (ctl_fault_log FaultSource.worker unknown_code s.ctl.worker_cmd s.ctl.kernel_cmd_seq s)

-- `switch (ctl->worker_cmd)`
pub switch_cmd {ℓ} : {A : Type ℓ} → ℕ → (on_none on_boot on_job on_panic on_stop otherwise : A) → A
switch_cmd cmd on_none on_boot on_job on_panic on_stop otherwise =
    if cmd == Cmd.none
    then on_none
    else if cmd == Cmd.boot
    then on_boot
    else if cmd == Cmd.run_job
    then on_job
    else if cmd == Cmd.panic
    then on_panic
    else if cmd == Cmd.stop
    then on_stop
    else otherwise

-- `ctl->worker_heartbeat++`
pub count_beat : Shared → Shared
count_beat s = record s {
  ctl = record (s.ctl) { worker_heartbeat = u32 (s.ctl.worker_heartbeat + 1) };
}

-- One round of the main loop, behind its `ctl_invalidate`.
unfoldable pub worker_round : Env → Shared → Phase × Shared
unfolding serve_boot serve_job serve_panic serve_stop serve_unknown switch_cmd count_beat
worker_round env s =
    switch_cmd s.ctl.worker_cmd (serving, count_beat s) (serving, serve_boot (count_beat s))
      (serving, serve_job env (count_beat s)) (serving, serve_panic (count_beat s))
      (parked, serve_stop (count_beat s)) (serving, serve_unknown (count_beat s))

-- Rounds `i`, ..., `i + n - 1` of `worker_main`, with the writes of the other cores before each.
pub worker_run : (env : Env) (job_env : ℕ → Env) (n i : ℕ) → Phase → Shared → Phase × Shared
worker_run env job_env zero i p s = (p, s)
worker_run env job_env (suc n) i parked s = (parked, s)
worker_run env job_env (suc n) i serving s =
    let (p, t) = worker_round (job_env i) (env i s) in worker_run env job_env n (i + 1) p t
