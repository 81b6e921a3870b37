-- ===== src/Worker/Job.antt =====
-- The demo job of worker_rtos/main.c.
use sg2002_kraken.Base.{
  ℕ, zero, suc, ◌+◌, ◌-◌, ◌%◌, ◌^◌, ◌≤◌, ◌<◌, ◌≡◌, ◌≢◌, ◌⊎◌, refl, sym, ap, ap₂, ◌∙◌, true, false,
  arith, ◌==◌, subst, if◌then◌else◌, bit_xor, Bool-cases, inl, inr, ℕ_discrete,
}
use sg2002_kraken.Kraken.Cmd
use sg2002_kraken.Kraken.CoreState
use sg2002_kraken.Kraken.Structs.{SharedCtrl, Shared}
use sg2002_kraken.Worker.{Env, job_rounds, finish_job, job_round, is_cancel, job_from, run_demo_job}

job_stops :
    (env : Env) (left i : ℕ) (s : Shared)
    → is_cancel (env i s).ctl.worker_cmd ≡ true
    → job_from env (suc left) i s ≡ record (env i s) { ctl = finish_job ((env i s).ctl) }
unfolding job_from
job_stops env left i s e = rw e

job_goes_on :
    (env : Env) (left i : ℕ) (s : Shared)
    → is_cancel (env i s).ctl.worker_cmd ≡ false
    → job_from env (suc left) i s
      ≡ job_from env left (i + 1) (record (env i s) { ctl = job_round i ((env i s).ctl) })
unfolding job_from
job_goes_on env left i s e = rw e

-- The worker is back in its idle state, with the slot free and the last command acknowledged.
pub record IsServed (ctl : SharedCtrl) : Type 0 where
  pub state : ctl.worker_state ≡ CoreState.idle
  pub slot : ctl.worker_cmd ≡ Cmd.none
  pub acked : ctl.worker_cmd_ack ≡ ctl.kernel_cmd_seq

finish_job-IsServed : (ctl : SharedCtrl) → IsServed (finish_job ctl)
unfolding finish_job
finish_job-IsServed ctl = record { state = refl; slot = refl; acked = refl }

job_from-IsServed : (env : Env) (left i : ℕ) (s : Shared) → IsServed ((job_from env left i s).ctl)
job_from-IsServed env zero i s = unfold job_from in finish_job-IsServed (s.ctl)
job_from-IsServed env (suc left) i s = elim (Bool-cases (is_cancel (env i s).ctl.worker_cmd)) [
  | inl e ↦ rw (job_stops env left i s e) (finish_job-IsServed ((env i s).ctl))
  | inr e ↦ rw (job_goes_on env left i s e) (job_from-IsServed env left (i + 1) _)
]

-- A job ends whatever the other cores write: the worker is idle, the slot is free, and the
-- kernel's last sequence number is acknowledged.
pub run_demo_job-IsServed : (env : Env) (s : Shared) → IsServed ((run_demo_job env s).ctl)
unfolding run_demo_job
run_demo_job-IsServed env s = job_from-IsServed env job_rounds 0 _

-- In round `i` the other cores leave alone what the job reads and counts.
pub record IsQuietAt (env : Env) (i : ℕ) : Type 0 where
  pub cmd : (s : Shared) → (env i s).ctl.worker_cmd ≡ s.ctl.worker_cmd
  pub arg0 : (s : Shared) → (env i s).ctl.worker_arg0 ≡ s.ctl.worker_arg0
  pub beat : (s : Shared) → (env i s).ctl.worker_heartbeat ≡ s.ctl.worker_heartbeat
  pub result : (s : Shared) → (env i s).ctl.worker_result ≡ s.ctl.worker_result

not_cancel : (cmd : ℕ) → cmd ≢ Cmd.cancel → cmd ≢ Cmd.stop → is_cancel cmd ≡ false
unfolding is_cancel
not_cancel cmd a b = ground arith

cancels : (cmd : ℕ) → (cmd ≡ Cmd.cancel) ⊎ (cmd ≡ Cmd.stop) → is_cancel cmd ≡ true
unfolding is_cancel
cancels cmd h = ground arith

-- What a job that nobody cancels has done from round `i` on.
record Ran (left i : ℕ) (s t : Shared) : Type 0 where
  beat : t.ctl.worker_heartbeat ≡ (s.ctl.worker_heartbeat + left) % 2 ^ 32
  result :
      t.ctl.worker_result
      ≡ (if left == 0 then s.ctl.worker_result else bit_xor (i + left - 1) s.ctl.worker_arg0)

last_result :
    (left i : ℕ) {a b : ℕ} (r : ℕ)
    → a ≡ b
    → (if left == 0 then bit_xor i a else bit_xor (i + 1 + left - 1) a)
      ≡ (if suc left == 0 then r else bit_xor (i + suc left - 1) b)
last_result zero i {a} {b} r e =
    let same : bit_xor i a ≡ bit_xor (i + 1 - 1) b = ap₂ bit_xor (omega arith) e in ground arith
last_result (suc left) i {a} {b} r e =
    let same : bit_xor (i + 1 + suc left - 1) a ≡ bit_xor (i + suc (suc left) - 1) b =
      ap₂ bit_xor (omega arith) e in
    ground arith

job_from-Ran :
    (env : Env) (left i : ℕ) (s : Shared)
    → ((j : ℕ) → IsQuietAt env j)
    → s.ctl.worker_cmd ≢ Cmd.cancel
    → s.ctl.worker_cmd ≢ Cmd.stop
    → s.ctl.worker_heartbeat < 2 ^ 32
    → Ran left i s (job_from env left i s)
unfolding job_round
job_from-Ran env zero i s quiet nc ns h =
    unfold job_from finish_job in record { beat = omega arith; result = refl }
job_from-Ran env (suc left) i s quiet nc ns h =
    let next : Shared = record (env i s) { ctl = job_round i ((env i s).ctl) } in
    let rest =
      job_from-Ran env left (i + 1) next quiet (λ e. nc (sym ((quiet i).cmd s) ∙ e))
        (λ e. ns (sym ((quiet i).cmd s) ∙ e)) (omega arith) in
    rw
      (job_goes_on env left i s
        (not_cancel _ (λ e. nc (sym ((quiet i).cmd s) ∙ e)) (λ e. ns (sym ((quiet i).cmd s) ∙ e))))
      (record {
        beat = rest.beat ∙ omega (arith, (quiet i).beat s);
        result = rest.result ∙ last_result left i _ ((quiet i).arg0 s);
      })

-- From CMD_RUN_JOB and a 32-bit heartbeat, if the other cores leave the job's fields alone, the
-- heartbeat has advanced by 50000 when the job ends, and the result is that of round 49999.
pub run_demo_job_full :
    (env : Env) (s : Shared)
    → ((j : ℕ) → IsQuietAt env j)
    → s.ctl.worker_cmd ≡ Cmd.run_job
    → s.ctl.worker_heartbeat < 2 ^ 32
    → let t = run_demo_job env s in
      (t.ctl.worker_heartbeat ≡ (s.ctl.worker_heartbeat + job_rounds) % 2 ^ 32)
      × (t.ctl.worker_result ≡ bit_xor 49999 s.ctl.worker_arg0)
unfolding run_demo_job
run_demo_job_full env s quiet cmd h =
    let ran =
      job_from-Ran env job_rounds 0 (record s { ctl = record (s.ctl) { worker_state = 3 } }) quiet
        (λ e. absurd (omega (arith, e, cmd))) (λ e. absurd (omega (arith, e, cmd))) h in
    (ran.beat, ran.result)

job_from_cancelled :
    (env : Env) (k left i : ℕ) (s : Shared)
    → ((j : ℕ) → j < k → IsQuietAt env j)
    → ((u : Shared)
        → ((env k u).ctl.worker_cmd ≡ Cmd.cancel) ⊎ ((env k u).ctl.worker_cmd ≡ Cmd.stop))
    → ((u : Shared) → (env k u).ctl.worker_heartbeat ≡ u.ctl.worker_heartbeat)
    → i ≤ k
    → k < i + left
    → s.ctl.worker_cmd ≢ Cmd.cancel
    → s.ctl.worker_cmd ≢ Cmd.stop
    → s.ctl.worker_heartbeat < 2 ^ 32
    → (job_from env left i s).ctl.worker_heartbeat ≡ (s.ctl.worker_heartbeat + (k - i)) % 2 ^ 32
unfolding job_round
job_from_cancelled env k zero i s quiet cancel beats le lt nc ns h = absurd (omega arith)
job_from_cancelled env k (suc left) i s quiet cancel beats le lt nc ns h = elim (ℕ_discrete i k) [
  | yes p ↦
      rw
        (job_stops env left i s (
          cancels _ (
            subst
              (λ j. ((env j s).ctl.worker_cmd ≡ Cmd.cancel) ⊎ ((env j s).ctl.worker_cmd ≡ Cmd.stop))
              (sym p) (cancel s))))
        (unfold finish_job in
          (subst (λ j. (env j s).ctl.worker_heartbeat ≡ s.ctl.worker_heartbeat) (sym p) (beats s)
            ∙ omega arith))
  | no p ↦
      let q = quiet i (omega arith) in
      let next : Shared = record (env i s) { ctl = job_round i ((env i s).ctl) } in
      let rest =
        job_from_cancelled env k left (i + 1) next quiet cancel beats (omega arith) (omega arith)
          (λ e. nc (sym (q.cmd s) ∙ e)) (λ e. ns (sym (q.cmd s) ∙ e)) (omega arith) in
      rw
        (job_goes_on env left i s
          (not_cancel _ (λ e. nc (sym (q.cmd s) ∙ e)) (λ e. ns (sym (q.cmd s) ∙ e))))
        (rest ∙ omega (arith, q.beat s))
]

-- From CMD_RUN_JOB and a 32-bit heartbeat, if the other cores leave the job's fields alone before
-- round k, with k below 50000, and write CMD_CANCEL or CMD_STOP before round k without touching
-- the heartbeat, the heartbeat has advanced by exactly k when the job ends.
pub run_demo_job_cancelled :
    (env : Env) (k : ℕ) (s : Shared)
    → ((j : ℕ) → j < k → IsQuietAt env j)
    → ((u : Shared)
        → ((env k u).ctl.worker_cmd ≡ Cmd.cancel) ⊎ ((env k u).ctl.worker_cmd ≡ Cmd.stop))
    → ((u : Shared) → (env k u).ctl.worker_heartbeat ≡ u.ctl.worker_heartbeat)
    → k < job_rounds
    → s.ctl.worker_cmd ≡ Cmd.run_job
    → s.ctl.worker_heartbeat < 2 ^ 32
    → (run_demo_job env s).ctl.worker_heartbeat ≡ (s.ctl.worker_heartbeat + k) % 2 ^ 32
unfolding run_demo_job
run_demo_job_cancelled env k s quiet cancel beats lt cmd h =
    job_from_cancelled env k job_rounds 0 (record s { ctl = record (s.ctl) { worker_state = 3 } })
      quiet cancel beats (omega arith) (omega arith) (λ e. absurd (omega (arith, e, cmd)))
      (λ e. absurd (omega (arith, e, cmd))) h
    ∙ ap (λ n. (s.ctl.worker_heartbeat + n) % 2 ^ 32) {x = k - 0} (omega arith)
