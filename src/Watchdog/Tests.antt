-- ===== src/Watchdog/Tests.antt =====
-- Runs of the watchdog.
use sg2002_kraken.Base.{ℕ, ◌+◌, ◌≡◌, refl, arith}
use sg2002_kraken.Kraken.Structs.{SharedCtrl}
use sg2002_kraken.Ctl.Zero.{zero_ctl}
use sg2002_kraken.Watchdog.{Watch, watching, signalled, round, run}
use sg2002_kraken.Watchdog.Rounds.{
  IsWatch, Watches, run_no_false_alarm, run_dead_kernel, run_hung_worker,
}

-- Both counters are one round from the limit, or at it.
abbrev near : Watch
near = record { last_pet = 0; last_worker = 0; kernel_timeout = 59999; worker_timeout = 59999 }

abbrev at_limit : Watch
at_limit = record { last_pet = 0; last_worker = 0; kernel_timeout = 60000; worker_timeout = 10 }

abbrev working : SharedCtrl
working = record zero_ctl { worker_state = 3 }

abbrev dead : (i : ℕ) → SharedCtrl → SharedCtrl
dead i c = c

run_no_false_alarm_example : Watches IsWatch ((run dead 1 0 (watching near) working).0)
run_no_false_alarm_example = run_no_false_alarm dead 1 0 near working (omega arith) (omega arith)

run_dead_kernel_example : (run dead 2 0 (watching near) zero_ctl).0 ≡ signalled
run_dead_kernel_example =
    run_dead_kernel dead 2 0 near zero_ctl (λ j c. refl)
      (record { kernel_in = omega arith; worker_in = omega arith }) refl (omega arith)

-- The kernel pets in every round, and the worker hangs.
abbrev petting : (i : ℕ) → SharedCtrl → SharedCtrl
petting i c = record c { kernel_pet_seq = i + 1 }

run_hung_worker_example : (run petting 2 0 (watching near) working).0 ≡ signalled
run_hung_worker_example =
    run_hung_worker petting 2 0 near working (λ j c. refl) (λ j c. refl)
      (record { kernel_in = omega arith; worker_in = omega arith }) refl refl (omega arith)

at_limit_signals : (round (watching at_limit) working).0 ≡ signalled
unfolding round
at_limit_signals = refl
