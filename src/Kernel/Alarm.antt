-- ===== src/Kernel/Alarm.antt =====
-- kernel/main.c with watch8051/watchdog.c: what the kernel does about an alarm of the watchdog.
use sg2002_kraken.Base.{
  ℕ, ◌≡◌, refl, ap, ◌∙◌, true, inl, inr, arith, if◌then◌else◌, bit, bit_and, bit_and_pow, ◌!=◌, ◌⊎◌,
  ◌<◌, subst,
}
use sg2002_kraken.Mmio.{Bus}
use sg2002_kraken.Kraken.FaultSource
use sg2002_kraken.Kraken.Stage
use sg2002_kraken.Kraken.SysFlag
use sg2002_kraken.Kraken.Options.{Options}
use sg2002_kraken.Kraken.Structs.{SharedCtrl}
use sg2002_kraken.UsbSerial.{Cdc}
use sg2002_kraken.Platform.{sg2002_request_watchdog_reset}
use sg2002_kraken.Ctl.{ctl_set_stage, ctl_fault_log}
use sg2002_kraken.Kernel.{Env, Machine, note_panic, kernel_panic, on_shared, on_device, say}
use sg2002_kraken.Kernel.Supervisor.{Watch, supervisor_round}
use sg2002_kraken.Kernel.Invariant.{AllEnds, AllEnds-map}
use sg2002_kraken.Watchdog as Dog
use sg2002_kraken.Watchdog.Rounds.{IsWatch, round_signal_lem}

module _ {bus : Bus} {cdc : Cdc} where
  -- The kernel has panicked for a reason, with the reset requested from the hardware watchdog.
  pub record ResetFor (why : ℕ) (m t : Machine bus cdc) : Type 0 where
    pub stage : t.shared.ctl.system_stage ≡ Stage.panic
    pub reason : t.shared.ctl.reset_reason ≡ why
    pub tag : t.shared.ctl.faults.last_tag ≡ FaultSource.kernel
    pub code : t.shared.ctl.faults.last_code ≡ why
    pub requested : t.device ≡ sg2002_request_watchdog_reset bus (m.device)

  kernel_panic-ResetFor :
      (reason : ℕ) (m : Machine bus cdc)
      → ResetFor reason m (kernel_panic reason SysFlag.watchdog_timeout m)
  unfolding kernel_panic say on_shared on_device note_panic ctl_set_stage ctl_fault_log
  kernel_panic-ResetFor reason m = record {
    stage = refl;
    reason = refl;
    tag = refl;
    code = refl;
    requested = refl;
  }

flag_test : (flags : ℕ) → bit flags 31 ≡ 1 → (bit_and flags SysFlag.watchdog_timeout != 0) ≡ true
flag_test flags h = ground (arith, bit_and_pow 31 flags)

-- Where the watchdog's flag is raised, the round of the supervisor panics at once, whatever else the
-- state is: for the reason in the page, or for 0x8051ffff where there is none, with that reason as
-- the kernel's last fault and a reset requested.
pub supervisor_round_alarm :
    (bus : Bus) (cdc : Cdc) (o : Options) (env : Env) (w : Watch) (m : Machine bus cdc)
    → bit m.shared.ctl.system_flags 31 ≡ 1
    → let reason =
        if m.shared.ctl.reset_reason != 0 then m.shared.ctl.reset_reason else 0x8051ffff in
      AllEnds (λ t. ResetFor reason m t) (λ _. ⊥) (supervisor_round o env (w, m))
unfolding supervisor_round
supervisor_round_alarm bus cdc o env w m h =
    rw (flag_test m.shared.ctl.system_flags h) (kernel_panic-ResetFor _ m)

given :
    (reason why : ℕ) → reason ≡ why → 0 < why → (if reason != 0 then reason else 0x8051ffff) ≡ why
given reason why e pos = ground arith

-- Where the watchdog, from counters within its limit, signals in a round, and the kernel's next
-- round begins with the page that it leaves, the kernel panics in that round, its reason is the
-- watchdog's, for the kernel or for the worker, and a reset is requested.
pub watchdog_signal_stops_kernel :
    (bus : Bus) (cdc : Cdc) (o : Options) (env : Env) (v : Dog.Watch) (ctl : SharedCtrl) (w : Watch)
    (m : Machine bus cdc)
    → IsWatch v
    → (Dog.round (Dog.watching v) ctl).0 ≡ Dog.signalled
    → m.shared.ctl ≡ (Dog.round (Dog.watching v) ctl).1
    → AllEnds
        (λ t.
          ResetFor Dog.kernel_reason m t × (v.kernel_timeout ≡ Dog.timeout_rounds)
          ⊎ ResetFor Dog.worker_reason m t × (v.worker_timeout ≡ Dog.timeout_rounds))
        (λ _. ⊥)
        (supervisor_round o env (w, m))
watchdog_signal_stops_kernel bus cdc o env v ctl w m h signals page =
    let t = round_signal_lem v ctl h signals in
    let flag = ap (λ (c : SharedCtrl). bit c.system_flags 31) page ∙ t.0 in
    let reason = ap (λ (c : SharedCtrl). c.reset_reason) page in
    AllEnds-map _ _ (λ _. ⊥) (supervisor_round o env (w, m))
      (supervisor_round_alarm bus cdc o env w m flag)
      λ m' panicked. elim (t.1) [
        | inl k ↦ inl (
          subst (λ why. ResetFor why m m') (given _ Dog.kernel_reason (reason ∙ k.0) (omega arith))
              panicked,
          k.2,
        )
        | inr k ↦ inr (
          subst (λ why. ResetFor why m m') (given _ Dog.worker_reason (reason ∙ k.0) (omega arith))
              panicked,
          k.3,
        )
      ]
