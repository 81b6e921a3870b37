-- ===== src/Worker/Commands.antt =====
-- The commands of worker_rtos/main.c.
use sg2002_kraken.Base.{
  ℕ, suc, ◌≡◌, ◌≢◌, ◌⊎◌, refl, sym, ◌∙◌, arith, ◌==◌, ◌<◌, ◌||◌, if◌then◌else◌, ℕ_discrete, subst,
  inl, inr,
}
use sg2002_kraken.Kraken.Cmd
use sg2002_kraken.Kraken.CoreState
use sg2002_kraken.Kraken.FaultSource
use sg2002_kraken.Kraken.TraceCode
use sg2002_kraken.Kraken.Structs.{Shared}
use sg2002_kraken.Ctl.{ctl_trace_log, ctl_fault_log}
use sg2002_kraken.Worker.{
  Env, Phase, serving, parked, worker_round, serve_boot, serve_job, serve_panic, serve_stop,
  serve_unknown, switch_cmd, count_beat, acknowledge, finish_job,
}
use sg2002_kraken.Worker.Job.{run_demo_job-IsServed}

-- The state in which a command leaves the worker, and what it leaves in the command's slot.
abbrev pub state_after : (cmd before : ℕ) → ℕ
state_after cmd before =
    if cmd == Cmd.none
    then before
    else if cmd == Cmd.boot || cmd == Cmd.run_job
    then CoreState.idle
    else if cmd == Cmd.stop
    then CoreState.offline
    else CoreState.fault

abbrev pub slot_after : ℕ → ℕ
slot_after cmd = if cmd == Cmd.boot || cmd == Cmd.run_job then Cmd.none else cmd

abbrev pub phase_after : ℕ → Phase
phase_after cmd = if cmd == Cmd.stop then parked else serving

-- What a round in state `s` must leave.
record Served (s : Shared) (phase : Phase) (t : Shared) : Type 0 where
  in_phase : phase ≡ phase_after s.ctl.worker_cmd
  state : t.ctl.worker_state ≡ state_after s.ctl.worker_cmd s.ctl.worker_state
  slot : t.ctl.worker_cmd ≡ slot_after s.ctl.worker_cmd
  acked :
      t.ctl.worker_cmd_ack
      ≡ (if s.ctl.worker_cmd == Cmd.none then s.ctl.worker_cmd_ack else t.ctl.kernel_cmd_seq)

-- How a command leaves the page.
abbrev Leaves : (state slot : ℕ) → Shared → Type 0
Leaves state slot t =
    (t.ctl.worker_state ≡ state)
    × (t.ctl.worker_cmd ≡ slot)
    × (t.ctl.worker_cmd_ack ≡ t.ctl.kernel_cmd_seq)

by_table :
    {s t : Shared} {phase : Phase} {state slot : ℕ}
    → s.ctl.worker_cmd ≢ Cmd.none
    → (phase_after s.ctl.worker_cmd ≡ phase)
      × (state_after s.ctl.worker_cmd s.ctl.worker_state ≡ state)
      × (slot_after s.ctl.worker_cmd ≡ slot)
    → Leaves state slot t
    → Served s phase t
by_table {s} {t} n row h = record {
  in_phase = sym row.0;
  state = h.0 ∙ sym row.1;
  slot = h.1 ∙ sym row.2;
  acked = ground arith;
}

-- What holds of every case holds of the switch.
pub switch_all {ℓ ℓ'} :
    {A : Type ℓ} (P : A → Type ℓ') (cmd : ℕ) {a b c d e f : A}
    → (cmd ≡ Cmd.none → P a)
    → (cmd ≡ Cmd.boot → P b)
    → (cmd ≡ Cmd.run_job → P c)
    → (cmd ≡ Cmd.panic → P d)
    → (cmd ≡ Cmd.stop → P e)
    → (cmd ≢ Cmd.none → cmd ≢ Cmd.boot → cmd ≢ Cmd.run_job → cmd ≢ Cmd.stop → P f)
    → P (switch_cmd cmd a b c d e f)
unfolding switch_cmd
switch_all P cmd none boot job panic stop other = elim (ℕ_discrete cmd 0) [
  | yes p ↦ rw p (none p)
  | no n0 ↦ elim (ℕ_discrete cmd 1) [
    | yes p ↦ rw p (boot p)
    | no n1 ↦ elim (ℕ_discrete cmd 2) [
      | yes p ↦ rw p (job p)
      | no n2 ↦ elim (ℕ_discrete cmd 6) [
        | yes p ↦ rw p (panic p)
        | no n6 ↦ elim (ℕ_discrete cmd 4) [
          | yes p ↦ rw p (stop p)
          | no n4 ↦ subst P (ground arith) (other n0 n1 n2 n4)
        ]
      ]
    ]
  ]
]

-- The table at each command.
abbrev Row : ℕ → ℕ → Type 0
Row cmd before =
    ((cmd ≡ Cmd.boot) ⊎ (cmd ≡ Cmd.run_job)
      → (phase_after cmd ≡ serving)
        × (state_after cmd before ≡ CoreState.idle)
        × (slot_after cmd ≡ Cmd.none))
    × (cmd ≡ Cmd.stop
        → (phase_after cmd ≡ parked)
          × (state_after cmd before ≡ CoreState.offline)
          × (slot_after cmd ≡ cmd))
    × (cmd ≢ Cmd.boot
        → cmd ≢ Cmd.run_job
        → cmd ≢ Cmd.stop
        → (phase_after cmd ≡ serving)
          × (state_after cmd before ≡ CoreState.fault)
          × (slot_after cmd ≡ cmd))

table : (cmd before : ℕ) → cmd ≢ Cmd.none → Row cmd before
table cmd before n = (λ h. ground arith, λ h. ground arith, λ a b c. ground arith)

serve_boot-Leaves : (s : Shared) → Leaves CoreState.idle Cmd.none (serve_boot s)
unfolding serve_boot finish_job
serve_boot-Leaves s = (refl, refl, refl)

serve_job-Leaves : (env : Env) (s : Shared) → Leaves CoreState.idle Cmd.none (serve_job env s)
unfolding serve_job
serve_job-Leaves env s =
    let traced =
      ctl_trace_log FaultSource.worker TraceCode.worker_cmd_run_job s.ctl.worker_arg0
        s.ctl.worker_arg1 s in
    let h = run_demo_job-IsServed env traced in (h.state, h.slot, h.acked)

serve_panic-Leaves : (s : Shared) → Leaves CoreState.fault s.ctl.worker_cmd (serve_panic s)
unfolding serve_panic acknowledge ctl_trace_log ctl_fault_log
serve_panic-Leaves s = (refl, refl, refl)

serve_stop-Leaves : (s : Shared) → Leaves CoreState.offline s.ctl.worker_cmd (serve_stop s)
unfolding serve_stop acknowledge ctl_trace_log
serve_stop-Leaves s = (refl, refl, refl)

serve_unknown-Leaves : (s : Shared) → Leaves CoreState.fault s.ctl.worker_cmd (serve_unknown s)
unfolding serve_unknown acknowledge ctl_fault_log
serve_unknown-Leaves s = (refl, refl, refl)

worker_round-Served :
    (env : Env) (s : Shared) → Served s ((worker_round env s).0) ((worker_round env s).1)
unfolding worker_round count_beat
worker_round-Served env s =
    switch_all (λ (r : Phase × Shared). Served s (r.0) (r.1)) s.ctl.worker_cmd
      (λ e. record {
        in_phase = ground arith;
        state = ground arith;
        slot = ground arith;
        acked = ground arith;
      })
      (λ e. by_table (used e) ((row (used e)).0 (inl e)) (serve_boot-Leaves (count_beat s)))
      (λ e. by_table (used e) ((row (used e)).0 (inr e)) (serve_job-Leaves env (count_beat s)))
      (λ e.
        by_table (used e)
          ((row (used e)).2 (λ x. absurd (other e x (omega arith)))
            (λ x. absurd (other e x (omega arith))) (λ x. absurd (other e x (omega arith))))
          (serve_panic-Leaves (count_beat s)))
      (λ e. by_table (used e) ((row (used e)).1 e) (serve_stop-Leaves (count_beat s)))
      (λ a b c d. by_table a ((row a).2 b c d) (serve_unknown-Leaves (count_beat s)))
  where
    used : {n : ℕ} → s.ctl.worker_cmd ≡ suc n → s.ctl.worker_cmd ≢ Cmd.none
    used e z = omega (arith, e, z)

    other : {n : ℕ} → s.ctl.worker_cmd ≡ 6 → s.ctl.worker_cmd ≡ n → n < 6 → ⊥
    other e x h = omega (arith, e, x)

    row : s.ctl.worker_cmd ≢ Cmd.none → Row s.ctl.worker_cmd s.ctl.worker_state
    row n = table s.ctl.worker_cmd s.ctl.worker_state n

-- One round serves any command: the worker's phase, its state and the command slot are those of
-- the table, and unless there was no command the kernel's last sequence number is acknowledged.
pub worker_round_lem :
    (env : Env) (s : Shared)
    → let (phase, t) = worker_round env s in
      let cmd = s.ctl.worker_cmd in
      (phase ≡ phase_after cmd)
      × (t.ctl.worker_state ≡ state_after cmd s.ctl.worker_state)
      × (t.ctl.worker_cmd ≡ slot_after cmd)
      × (t.ctl.worker_cmd_ack
          ≡ (if cmd == Cmd.none then s.ctl.worker_cmd_ack else t.ctl.kernel_cmd_seq))
worker_round_lem env s = let h = worker_round-Served env s in (h.in_phase, h.state, h.slot, h.acked)
