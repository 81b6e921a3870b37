-- ===== src/Watchdog/Rounds.antt =====
-- The rounds of the main loop of watch8051/watchdog.c.
use sg2002_kraken.Base.{
  ℕ, zero, suc, ◌+◌, ◌≤◌, ◌<◌, ◌≡◌, ◌⊎◌, refl, arith, sym, ◌∙◌, bit, bit-bit_or, bit_or, bit-le,
  bit-pow_self,
}
use sg2002_kraken.Kraken.Structs.{SharedCtrl}
use sg2002_kraken.Watchdog.{
  Watch, Phase, watching, signalled, State, timeout_rounds, core_running, kernel_reason,
  worker_reason, round, run,
}

-- The counters stay below the limit of their 16 bits, so `++` never wraps.
pub record IsWatch (w : Watch) : Type 0 where
  pub kernel_in : w.kernel_timeout ≤ timeout_rounds
  pub worker_in : w.worker_timeout ≤ timeout_rounds

-- A counter grows by one in a round, or goes back to 0.
record Advances (w v : Watch) : Type 0 where
  kernel : v.kernel_timeout ≤ w.kernel_timeout + 1
  worker : v.worker_timeout ≤ w.worker_timeout + 1
  valid : IsWatch v

-- The phase is watching, with a state of which `P` holds.
abbrev pub Watches : (Watch → Type 0) → Phase → Type 0
Watches P (watching v) = P v
Watches P signalled = ⊥

-- A round before either counter is at its limit does not signal.
round-Advances :
    (w : Watch) (ctl : SharedCtrl)
    → w.kernel_timeout < timeout_rounds
    → w.worker_timeout < timeout_rounds
    → Watches (Advances w) ((round (watching w) ctl).0)
unfolding round
round-Advances w ctl hk hw = ground arith

-- Whatever the other cores write, n rounds do not signal while both counters are n or more below
-- 60000, and the counters stay at most 60000.
pub run_no_false_alarm :
    (env : ℕ → SharedCtrl → SharedCtrl) (n i : ℕ) (w : Watch) (ctl : SharedCtrl)
    → w.kernel_timeout + n ≤ timeout_rounds
    → w.worker_timeout + n ≤ timeout_rounds
    → Watches IsWatch ((run env n i (watching w) ctl).0)
unfolding run
run_no_false_alarm env zero i w ctl hk hw = record {
  kernel_in = omega arith;
  worker_in = omega arith;
}
run_no_false_alarm env (suc n) i w ctl hk hw =
    go (round (watching w) (env i ctl)) (round-Advances w (env i ctl) (omega arith) (omega arith))
      (λ v c p q. run_no_false_alarm env n (i + 1) v c p q)
  where
    go :
        (s : State)
        → Watches (Advances w) (s.0)
        → ((v : Watch) (c : SharedCtrl)
            → v.kernel_timeout + n ≤ timeout_rounds
            → v.worker_timeout + n ≤ timeout_rounds
            → Watches IsWatch ((run env n (i + 1) (watching v) c).0))
        → Watches IsWatch ((run env n (i + 1) (s.0) (s.1)).0)
    go (watching v, c) a ih = ih v c (omega (arith, a)) (omega (arith, a))
    go (signalled, c) a ih = absurd a

-- Once it has signalled, the firmware does nothing but count.
pub run_signalled :
    (env : ℕ → SharedCtrl → SharedCtrl) (n i : ℕ) (ctl : SharedCtrl)
    → (run env n i signalled ctl).0 ≡ signalled
unfolding run round
run_signalled env zero i ctl = refl
run_signalled env (suc n) i ctl = run_signalled env n (i + 1) _

-- The kernel does not pet, or the worker hangs in a job.
record IsQuiet (w : Watch) (ctl : SharedCtrl) (v : Watch) (next : SharedCtrl) : Type 0 where
  counted : v.kernel_timeout ≡ w.kernel_timeout + 1
  same : v.last_pet ≡ w.last_pet
  kept : next.kernel_pet_seq ≡ ctl.kernel_pet_seq
  valid : IsWatch v

-- Either signalled, or watching as `P` says.
abbrev SignalsOr : (Watch → SharedCtrl → Type 0) → State → Type 0
SignalsOr P (watching v, c) = P v c
SignalsOr P (signalled, c) = Unit

round-IsQuiet :
    (w : Watch) (ctl : SharedCtrl)
    → IsWatch w
    → ctl.kernel_pet_seq ≡ w.last_pet
    → SignalsOr
        (λ v c. IsQuiet w ctl v c × (w.kernel_timeout < timeout_rounds))
        (round (watching w) ctl)
unfolding round
round-IsQuiet w ctl h e = ground (arith, h)

-- From counters within the limit, if the kernel's pet sequence is the one the watchdog has seen
-- and nobody changes it, the watchdog has signalled after any number of rounds that takes the
-- counter beyond 60000, whatever else the other cores write.
pub run_dead_kernel :
    (env : ℕ → SharedCtrl → SharedCtrl) (n i : ℕ) (w : Watch) (ctl : SharedCtrl)
    → ((j : ℕ) (c : SharedCtrl) → (env j c).kernel_pet_seq ≡ c.kernel_pet_seq)
    → IsWatch w
    → ctl.kernel_pet_seq ≡ w.last_pet
    → timeout_rounds < w.kernel_timeout + n
    → (run env n i (watching w) ctl).0 ≡ signalled
unfolding run
run_dead_kernel env zero i w ctl still h e long = absurd (omega (arith, h))
run_dead_kernel env (suc n) i w ctl still h e long =
    go (round (watching w) (env i ctl)) (round-IsQuiet w (env i ctl) h (still i ctl ∙ e))
      (λ v c. run_dead_kernel env n (i + 1) v c still)
  where
    go :
        (s : State)
        → SignalsOr (λ v c. IsQuiet w (env i ctl) v c × (w.kernel_timeout < timeout_rounds)) s
        → ((v : Watch) (c : SharedCtrl)
            → IsWatch v
            → c.kernel_pet_seq ≡ v.last_pet
            → timeout_rounds < v.kernel_timeout + n
            → (run env n (i + 1) (watching v) c).0 ≡ signalled)
        → (run env n (i + 1) (s.0) (s.1)).0 ≡ signalled
    go (watching v, c) q ih =
        ih v c q.0.valid (q.0.kept ∙ still i ctl ∙ e ∙ sym q.0.same) (omega (arith, q.0.counted))
    go (signalled, c) q ih = run_signalled env n (i + 1) c

top_bit : (flags : ℕ) → bit (bit_or flags 0x80000000) 31 ≡ 1
top_bit flags = omega (arith, bit-bit_or 31 flags 0x80000000, bit-le 31 flags, bit-pow_self 31)

-- A round from counters within the limit that signals sets the kernel's timeout flag, and its
-- reason names a counter that was at the limit and whose sequence stood still; the worker's only
-- while the worker says that it runs.
pub round_signal_lem :
    (w : Watch) (ctl : SharedCtrl)
    → IsWatch w
    → (round (watching w) ctl).0 ≡ signalled
    → let after = (round (watching w) ctl).1 in
      (bit after.system_flags 31 ≡ 1)
      × ((after.reset_reason ≡ kernel_reason)
            × (ctl.kernel_pet_seq ≡ w.last_pet)
            × (w.kernel_timeout ≡ timeout_rounds)
          ⊎ (after.reset_reason ≡ worker_reason)
            × (ctl.worker_heartbeat ≡ w.last_worker)
            × (ctl.worker_state ≡ core_running)
            × (w.worker_timeout ≡ timeout_rounds))
unfolding round
round_signal_lem w ctl h e = ground (arith, h, top_bit ctl.system_flags)

round-stalled :
    (w : Watch) (ctl : SharedCtrl)
    → IsWatch w
    → ctl.worker_heartbeat ≡ w.last_worker
    → ctl.worker_state ≡ core_running
    → SignalsOr
        (λ v c.
          (v.worker_timeout ≡ w.worker_timeout + 1)
          × (v.last_worker ≡ w.last_worker)
          × (c.worker_heartbeat ≡ ctl.worker_heartbeat)
          × (c.worker_state ≡ ctl.worker_state)
          × IsWatch v)
        (round (watching w) ctl)
unfolding round
round-stalled w ctl h e r = ground (arith, h)

-- From counters within the limit, if the worker says that it runs, its heartbeat is the one the
-- watchdog has seen and nobody changes either, the watchdog has signalled after any number of
-- rounds that takes the worker's counter beyond 60000.
pub run_hung_worker :
    (env : ℕ → SharedCtrl → SharedCtrl) (n i : ℕ) (w : Watch) (ctl : SharedCtrl)
    → ((j : ℕ) (c : SharedCtrl) → (env j c).worker_heartbeat ≡ c.worker_heartbeat)
    → ((j : ℕ) (c : SharedCtrl) → (env j c).worker_state ≡ c.worker_state)
    → IsWatch w
    → ctl.worker_heartbeat ≡ w.last_worker
    → ctl.worker_state ≡ core_running
    → timeout_rounds < w.worker_timeout + n
    → (run env n i (watching w) ctl).0 ≡ signalled
unfolding run
run_hung_worker env zero i w ctl still runs h e r long = absurd (omega (arith, h))
run_hung_worker env (suc n) i w ctl still runs h e r long =
    go (round (watching w) (env i ctl))
      (round-stalled w (env i ctl) h (still i ctl ∙ e) (runs i ctl ∙ r))
      (λ v c. run_hung_worker env n (i + 1) v c still runs)
  where
    go :
        (s : State)
        → SignalsOr
            (λ v c.
              (v.worker_timeout ≡ w.worker_timeout + 1)
              × (v.last_worker ≡ w.last_worker)
              × (c.worker_heartbeat ≡ (env i ctl).worker_heartbeat)
              × (c.worker_state ≡ (env i ctl).worker_state)
              × IsWatch v)
            s
        → ((v : Watch) (c : SharedCtrl)
            → IsWatch v
            → c.worker_heartbeat ≡ v.last_worker
            → c.worker_state ≡ core_running
            → timeout_rounds < v.worker_timeout + n
            → (run env n (i + 1) (watching v) c).0 ≡ signalled)
        → (run env n (i + 1) (s.0) (s.1)).0 ≡ signalled
    go (watching v, c) q ih =
        ih v c q.4 (q.2 ∙ still i ctl ∙ e ∙ sym q.1) (q.3 ∙ runs i ctl ∙ r) (omega (arith, q))
    go (signalled, c) q ih = run_signalled env n (i + 1) c
