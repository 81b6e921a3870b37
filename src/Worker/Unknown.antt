-- ===== src/Worker/Unknown.antt =====
-- worker_rtos/main.c: a command that the worker does not know.
use sg2002_kraken.Base.{
  ℕ, zero, suc, ◌+◌, ◌≡◌, ◌≢◌, refl, sym, ap, ◌∙◌, [], ◌∷◌, ◌++◌, arith, replicate, last_of, subst,
}
use sg2002_kraken.Kraken.Config.{fault_log_size}
use sg2002_kraken.Kraken.Cmd
use sg2002_kraken.Kraken.FaultSource
use sg2002_kraken.Kraken.Structs.{FaultRecord, SharedCtrl, Shared}
use sg2002_kraken.Ctl.{ctl_fault_log}
use sg2002_kraken.Ctl.Logs.{
  IsShared, fault_view, fault, log_all, log_entry, log_all_views, fault_short, keep_last,
}
use sg2002_kraken.Worker.{
  Env, Phase, serving, unknown_code, worker_round, worker_run, serve_unknown, switch_cmd,
  count_beat, acknowledge,
}

-- A command that the worker does not know.
pub record IsUnknown (cmd : ℕ) : Type 0 where
  pub not_none : cmd ≢ Cmd.none
  pub not_boot : cmd ≢ Cmd.boot
  pub not_job : cmd ≢ Cmd.run_job
  pub not_panic : cmd ≢ Cmd.panic
  pub not_stop : cmd ≢ Cmd.stop

switch_unknown {ℓ} :
    {A : Type ℓ} {cmd : ℕ} (a b c d e f : A) → IsUnknown cmd → switch_cmd cmd a b c d e f ≡ f
unfolding switch_cmd
switch_unknown a b c d e f h = ground (arith, h)

abbrev pub unknown_fault : SharedCtrl → FaultRecord
unknown_fault ctl = record {
  tag = FaultSource.worker;
  code = unknown_code;
  arg0 = ctl.worker_cmd;
  arg1 = ctl.kernel_cmd_seq;
}

module _ (s : Shared) (h : IsShared s) where
  -- The page behind a round on an unknown command.
  next : Shared
  next = serve_unknown (count_beat s)

  next-IsShared :
      IsShared next
      × (fault_view (next.ctl)
          ≡ last_of fault_log_size (fault_view (s.ctl) ++ (unknown_fault (s.ctl) ∷ [])))
  unfolding next serve_unknown count_beat acknowledge fault_view log_all log_entry
  next-IsShared =
      let all =
        log_all_views (fault (unknown_fault (s.ctl)) ∷ []) {s = count_beat s}
          (record { faults = h.faults; traces = h.traces; page = h.page }) in
      (record { faults = all.3.faults; traces = all.3.traces; page = all.3.page }, all.0)

  next-same :
      (next.ctl.worker_cmd ≡ s.ctl.worker_cmd) × (unknown_fault (next.ctl) ≡ unknown_fault (s.ctl))
  unfolding next serve_unknown count_beat acknowledge ctl_fault_log
  next-same = (refl, refl)

  worker_round-unknown :
      (env : Env) → IsUnknown s.ctl.worker_cmd → worker_round env s ≡ (serving, next)
  unfolding worker_round next
  worker_round-unknown env u = switch_unknown _ _ _ _ _ _ u

-- The writes of the other cores before a round: the command that the worker has before it, its
-- number and the fault ring are as they were, and the state is well-formed.
pub record IsKept (f : Shared → Shared) : Type 0 where
  pub cmd : (s : Shared) → (f s).ctl.worker_cmd ≡ s.ctl.worker_cmd
  pub seq : (s : Shared) → (f s).ctl.kernel_cmd_seq ≡ s.ctl.kernel_cmd_seq
  pub ring : (s : Shared) → fault_view ((f s).ctl) ≡ fault_view (s.ctl)
  pub shared : (s : Shared) → IsShared s → IsShared (f s)

kept_fault :
    {f : Shared → Shared}
    → IsKept f
    → (s : Shared) → unknown_fault ((f s).ctl) ≡ unknown_fault (s.ctl)
kept_fault h s i = record {
  tag = FaultSource.worker;
  code = unknown_code;
  arg0 = h.cmd s i;
  arg1 = h.seq s i;
}

run_step :
    (env : Env) (job_env : ℕ → Env) (n i : ℕ) (s t : Shared)
    → worker_round (job_env i) (env i s) ≡ (serving, t)
    → worker_run env job_env (suc n) i serving s ≡ worker_run env job_env n (i + 1) serving t
unfolding worker_run
run_step env job_env n i s t e =
    ap (λ (r : Phase × Shared). worker_run env job_env n (i + 1) (r.0) (r.1)) e

-- On well-formed state, while the other cores keep it so and leave alone the fault ring and a
-- command that the worker does not know, with its sequence number, each of n rounds adds the same
-- fault to the fault ring, which keeps the last 16, the worker keeps serving and the invariant is
-- kept.
pub worker_run_unknown :
    (env : Env) (job_env : ℕ → Env) (n i : ℕ) {s : Shared}
    → ((j : ℕ) → IsKept (env j))
    → IsShared s
    → IsUnknown s.ctl.worker_cmd
    → let (phase, t) = worker_run env job_env n i serving s in
      (phase ≡ serving)
      × (fault_view (t.ctl)
          ≡ last_of fault_log_size (fault_view (s.ctl) ++ replicate n (unknown_fault (s.ctl))))
      × IsShared t
worker_run_unknown env job_env zero i {s} kept h u = unfold worker_run in (refl, fault_short s h, h)
worker_run_unknown env job_env (suc n) i {s} kept h u =
    let k = kept i in
    let s' = env i s in
    let one = next-IsShared s' (k.shared s h) in
    let same = next-same s' (k.shared s h) in
    let known = subst IsUnknown (sym (k.cmd s)) u in
    let fault_same = kept_fault k s in
    let ring = one.1 ∙ (λ j. last_of fault_log_size (k.ring s j ++ (fault_same j ∷ []))) in
    let rest =
      worker_run_unknown env job_env n (i + 1) {s = next s' (k.shared s h)} kept one.0
        (subst IsUnknown (sym same.0) known) in
    rw
      (run_step env job_env n i s (next s' (k.shared s h))
        (worker_round-unknown s' (k.shared s h) (job_env i) known))
      (
        rest.0,
        rest.1
            ∙ keep_last fault_log_size _ (fault_view (s.ctl)) _ _ _ ring
                (ap (λ r. unknown_fault (s.ctl) ∷ replicate n r) (sym (same.1 ∙ fault_same))),
        rest.2,
      )
