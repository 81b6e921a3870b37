-- ===== src/Kernel/Ack.antt =====
-- kernel/main.c: the wait for the worker, and the start of the watchdog behind it.
use sg2002_kraken.Base.{
  ℕ, zero, suc, ◌+◌, ◌<◌, ◌^◌, ◌≡◌, subst, [], ◌∷◌, bit_or, refl, ◌∙◌, true, false, Bool-cases, inl,
  inr, arith, bit, clear_bits, not32, bit-bit_or, bit-bit_and, bit-le, bit-pow_self,
}
use sg2002_kraken.Mmio.{Bus}
use sg2002_kraken.Kraken.Config.{worker_ack_spins}
use sg2002_kraken.Kraken.Stage
use sg2002_kraken.Kraken.SysFlag
use sg2002_kraken.Kraken.PlatErr
use sg2002_kraken.Console.{text}
use sg2002_kraken.Kraken.Structs.{Shared}
use sg2002_kraken.UsbSerial.{Cdc}
use sg2002_kraken.Ctl.{
  ctl_set_stage, ctl_fault_log, ctl_trace_log, ctl_set_platform_error, ctl_clear_platform_error,
}
use sg2002_kraken.Kernel.{
  Env, Machine, Run, running, stopped, ack_timeout_code, is_online, note_online, note_panic,
  kernel_panic, on_shared, on_ctl, on_device, say, trace,
}
use sg2002_kraken.Kernel.Main.{kernel_online}
use sg2002_kraken.Platform.{sg2002_user_led_set}
use sg2002_kraken.Kraken.Options.{Options}
use sg2002_kraken.Kernel.Restart.{wait_from, wait_for_worker_ack, ensure_watchdog_started}

-- What the kernel sees in round `i + n` of a wait that begins with round `i`.
unfoldable pub seen : Env → (i n : ℕ) → Shared → Shared
seen env i zero s = env i s
seen env i (suc n) s = seen env (i + 1) n (env i s)

-- The worker is up in that round.
abbrev pub UpAt : Env → (i n : ℕ) → Shared → Type 0
UpAt env i n s = is_online ((seen env i n s).ctl) ≡ true

abbrev pub DownAt : Env → (i n : ℕ) → Shared → Type 0
DownAt env i n s = is_online ((seen env i n s).ctl) ≡ false

-- The page when the worker is up: what the kernel saw, without the flags of a restart and the error
-- of an earlier wait.
pub record Online (before : Shared) (t : Shared) : Type 0 where
  pub stage : t.ctl.system_stage ≡ before.ctl.system_stage
  pub state : t.ctl.worker_state ≡ before.ctl.worker_state
  pub restarts : t.ctl.worker_restart_count ≡ before.ctl.worker_restart_count
  pub restarting : bit t.ctl.system_flags 5 ≡ 0
  pub stale : bit t.ctl.system_flags 4 ≡ 0
  pub error : bit t.ctl.platform_errors 2 ≡ 0

-- The page when the kernel gives up.
pub record GivenUp (t : Shared) : Type 0 where
  pub stage : t.ctl.system_stage ≡ Stage.panic
  pub reason : t.ctl.reset_reason ≡ ack_timeout_code
  pub stale : bit t.ctl.system_flags 4 ≡ 1
  pub error : bit t.ctl.platform_errors 2 ≡ 1

restart_flags_off : (v : ℕ) → (bit (clear_bits v 48) 5 ≡ 0) × (bit (clear_bits v 48) 4 ≡ 0)
unfolding bit
restart_flags_off v = (
  omega (arith, bit-bit_and 5 v (not32 48), bit-le 5 v),
  omega (arith, bit-bit_and 4 v (not32 48), bit-le 4 v),
)

timeout_off : (v : ℕ) → bit (clear_bits v 4) 2 ≡ 0
unfolding bit
timeout_off v = omega (arith, bit-bit_and 2 v (not32 4), bit-le 2 v)

raised : (k v : ℕ) → bit (bit_or v (2 ^ k)) k ≡ 1
raised k v = omega (arith, bit-bit_or k v (2 ^ k), bit-le k v, bit-pow_self k)

module _ {bus : Bus} {cdc : Cdc} where
  -- How the wait ends that begins with round `i` and has `left` rounds.
  abbrev pub Acked : Env → (left i : ℕ) → Shared → Run (Machine bus cdc) (Machine bus cdc) → Type 0
  Acked env left i s (running t) =
      (k : ℕ) × (k < left)
      × UpAt env i k s
      × ((j : ℕ) → j < k → DownAt env i j s)
      × Online (seen env i k s) (t.shared)
  Acked env left i s (stopped t) = ((j : ℕ) → j < left → DownAt env i j s) × GivenUp (t.shared)

  pub note_online-Online :
      (m : Machine bus cdc)
      → Online
          (m.shared)
          ((say (text "[kernel] worker online\n" ∷ []) (on_ctl note_online m)).shared)
  unfolding say on_ctl note_online ctl_clear_platform_error
  note_online-Online m =
      let off = restart_flags_off (m.shared.ctl.system_flags) in
      record {
        stage = refl;
        state = refl;
        restarts = refl;
        restarting = off.0;
        stale = off.1;
        error = timeout_off (m.shared.ctl.platform_errors);
      }

  give_up-GivenUp :
      (m : Machine bus cdc)
      → GivenUp (
          (kernel_panic ack_timeout_code SysFlag.worker_stale
            (on_ctl (ctl_set_platform_error PlatErr.worker_ack_timeout) m)).shared)
  unfolding kernel_panic say on_ctl on_shared note_panic ctl_set_platform_error ctl_set_stage
      ctl_fault_log
  give_up-GivenUp m = record {
    stage = refl;
    reason = refl;
    stale = raised 4 (m.shared.ctl.system_flags);
    error = raised 2 (m.shared.ctl.platform_errors);
  }

  later :
      (env : Env) (left i : ℕ) (s : Shared) (r : Run (Machine bus cdc) (Machine bus cdc))
      → is_online ((env i s).ctl) ≡ false
      → Acked env left (i + 1) (env i s) r
      → Acked env (suc left) i s r
  unfolding seen
  later env left i s (running t) down (k, lt, up, before, h) = (suc k, omega arith, up, sooner, h)
    where
      sooner : (j : ℕ) → j < suc k → DownAt env i j s
      sooner zero lt' = down
      sooner (suc j) lt' = before j (omega arith)
  later env left i s (stopped t) down (never, h) = (sooner, h)
    where
      sooner : (j : ℕ) → j < suc left → DownAt env i j s
      sooner zero lt' = down
      sooner (suc j) lt' = never j (omega arith)

  wait_from-Acked :
      (env : Env) (left i : ℕ) (m : Machine bus cdc)
      → Acked env left i (m.shared) (wait_from env left i m)
  unfolding wait_from seen on_shared
  wait_from-Acked env zero i m = (λ j lt. absurd (omega arith), give_up-GivenUp m)
  wait_from-Acked env (suc left) i m = elim (Bool-cases (is_online ((env i (m.shared)).ctl))) [
    | inl e ↦ rw e (
      0,
      omega arith,
      e,
      λ j lt. absurd (omega arith),
      note_online-Online (record m { shared = env i m.shared }),
    )
    | inr e ↦ rw e (
        later env left i (m.shared) _ e
          (wait_from-Acked env left (i + 1) (record m { shared = env i m.shared })))
  ]

-- A worker that is up in the first round ends the wait.
pub wait_from-online :
    {bus : Bus} {cdc : Cdc} (env : Env) (left i : ℕ) (m : Machine bus cdc)
    → is_online ((env i (m.shared)).ctl) ≡ true
    → wait_from env (suc left) i m
      ≡ running
          (say (text "[kernel] worker online\n" ∷ []) (on_ctl note_online (on_shared (env i) m)))
unfolding wait_from on_shared
wait_from-online env left i m e = rw e refl

-- The wait always ends, whatever the other cores write: it returns in the first of its rounds in
-- which the worker is up, with the restart flags and the timeout error cleared and the stage, the
-- worker's state and the restart count as they were, or it panics with the timeout's reason, flag
-- and error, and then the worker was up in none of the rounds.
pub wait_for_worker_ack_lem :
    (bus : Bus) (cdc : Cdc) (env : Env) (m : Machine bus cdc)
    → let begun =
        say
          (text "[kernel] wait worker ack\n" ∷ [])
          (on_shared (ctl_set_stage Stage.worker_wait_ack) m) in
      Acked env worker_ack_spins 0 (begun.shared) (wait_for_worker_ack env m)
unfolding wait_for_worker_ack
wait_for_worker_ack_lem bus cdc env m = wait_from-Acked env worker_ack_spins 0 _

seen-stage :
    (env : Env)
    → ((i : ℕ) (s : Shared) → (env i s).ctl.system_stage ≡ s.ctl.system_stage)
    → (i n : ℕ) (s : Shared) → (seen env i n s).ctl.system_stage ≡ s.ctl.system_stage
unfolding seen
seen-stage env keeps i zero s = keeps i s
seen-stage env keeps i (suc n) s = seen-stage env keeps (i + 1) n (env i s) ∙ keeps i s

module _ {bus : Bus} {cdc : Cdc} where
  kernel_online-device :
      (o : Options) (t : Machine bus cdc)
      → t.shared.ctl.system_stage ≡ Stage.worker_wait_ack
      → (kernel_online o t).device ≡ sg2002_user_led_set bus o true (t.device)
  unfolding kernel_online ensure_watchdog_started say on_shared on_device trace ctl_trace_log
      ctl_set_stage
  kernel_online-device o t stage = rw stage refl

-- Where the wait has returned and the other cores leave the stage alone, the stage is that of the
-- wait, the start of the 8051 watchdog does nothing, and up to the supervisor loop no register is
-- written but those of the LED.
pub watchdog_not_started :
    (bus : Bus) (cdc : Cdc) (o : Options) (env : Env) (m t : Machine bus cdc)
    → ((i : ℕ) (s : Shared) → (env i s).ctl.system_stage ≡ s.ctl.system_stage)
    → wait_for_worker_ack env m ≡ running t
    → (t.shared.ctl.system_stage ≡ Stage.worker_wait_ack)
      × (ensure_watchdog_started t ≡ t)
      × ((kernel_online o t).device ≡ sg2002_user_led_set bus o true (t.device))
unfolding ensure_watchdog_started say on_shared ctl_set_stage
watchdog_not_started bus cdc o env m t keeps e =
    let acked = wait_for_worker_ack_lem bus cdc env m in
    let (k, lt, up, before, online) = subst (Acked env worker_ack_spins 0 _) e acked in
    let stage = online.stage ∙ seen-stage env keeps 0 k _ in
    (stage, rw stage refl, kernel_online-device o t stage)
