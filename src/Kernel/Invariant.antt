-- ===== src/Kernel/Invariant.antt =====
-- kernel/main.c: the logs stay well-formed. What its parts share.
pub mod Restart
pub mod Rounds
pub mod Main
use sg2002_kraken.Base.{
  ℕ, zero, suc, ◌≡◌, true, false, List, [], ◌∷◌, Option-cases, Bool-cases, u32, clear_bits, inl,
  inr, Option, some, none, bit_and, ◌!=◌, Bool, if◌then◌else◌, ◌⊎◌, refl, ◌+◌, subst, sym, not,
  ◌||◌, ◌&&◌, leb, ◌==◌, ltb, set_bits,
}
use sg2002_kraken.Mmio.{Bus}
use sg2002_kraken.Kraken.FaultSource
use sg2002_kraken.Kraken.Stage
use sg2002_kraken.Kraken.UsbState
use sg2002_kraken.Kraken.TraceCode
use sg2002_kraken.Platform.{
  mailbox_send_8051, sg2002_user_led_toggle, sg2002_user_led_blink, sg2002_user_led_set,
}
use sg2002_kraken.Kraken.PlatErr
use sg2002_kraken.Kraken.ReleaseStatus
use sg2002_kraken.Release.{sg2002_release_worker_core}
use sg2002_kraken.Kraken.Cmd
use sg2002_kraken.Kraken.CoreState
use sg2002_kraken.Kraken.ImageKind
use sg2002_kraken.Image.{footer_size, sg2002_image_present, sg2002_validate_staged_image}
use sg2002_kraken.Kraken.Config.{
  worker_staging_addr, worker_image_max_bytes, worker_load_addr, worker_shared_top,
  worker_ack_spins, worker_stale_spins,
}
use sg2002_kraken.Kraken.SysFlag
use sg2002_kraken.Kraken.Options.{Options}
use sg2002_kraken.Kraken.Structs.{SharedCtrl, Shared}
use sg2002_kraken.Console.{Piece, text}
use sg2002_kraken.UsbSerial.{Cdc, usb_serial_init, usb_serial_read}
use sg2002_kraken.Persist.Ring.{IsPage, ctl_persist_clear-IsLog, IsLog-IsPage}
use sg2002_kraken.Ctl.{
  ctl_valid, ctl_note_boot_abi, ctl_note_riscv_boot_identity, ctl_init_defaults, ctl_next_cmd_seq,
  ctl_set_platform_error, ctl_clear_platform_error, ctl_set_stage, ctl_fault_log, ctl_trace_log,
}
use sg2002_kraken.Ctl.Progress.{ctl_set_stage_lem}
use sg2002_kraken.Ctl.Boot.{ctl_init_defaults_lem}
use sg2002_kraken.Ctl.Logs.{
  IsShared, IsFaultLog, IsTraceLog, ctl_fault_log-IsShared, ctl_trace_log-IsShared,
}
use sg2002_kraken.Kernel.{
  Env, Machine, Run, running, stopped, and_then, note_panic, note_restart, on_shared, on_ctl,
  on_device, trace, say, kernel_panic, note_online, is_online, release_failed_code,
  image_missing_code, ack_timeout_code, worker_fault_code, worker_stale_code, send_worker_cmd,
}
use sg2002_kraken.Kernel.Editor.{Command, edit}
use sg2002_kraken.Kernel.Restart.{
  maybe_stage_worker, offer_worker, release_failed, boot_worker, wait_from, wait_for_worker_ack,
  restart_worker, ensure_watchdog_started,
}
use sg2002_kraken.Kernel.Commands.{run_command, run_commands, handle_console, poll}
use sg2002_kraken.Kernel.Supervisor.{
  no_watch, Watch, Supervisor, beat, serve, note_beat, restarted, check_worker, supervisor_round,
  supervise,
}
use sg2002_kraken.Kernel.Main.{
  greet, usable, set_kernel_active, note_entry, start_console, kernel_entry, kernel_online,
  finish_boot, kernel_boot, kernel_main,
}

-- What holds of both branches.
pub if_both {ℓ ℓ'} :
    {A : Type ℓ} (P : A → Type ℓ') (b : Bool) {x y : A} → P x → P y → P (if b then x else y)
if_both P true p q = p
if_both P false p q = q

-- What holds however a part of the program ends.
abbrev pub AllEnds {ℓ} : {M A : Type 0} → (M → Type ℓ) → (A → Type ℓ) → Run M A → Type ℓ
AllEnds P Q (running a) = Q a
AllEnds P Q (stopped m) = P m

pub AllEnds-map {ℓ} :
    {M A : Type 0} (P P' : M → Type ℓ) (Q : A → Type ℓ) (r : Run M A)
    → AllEnds P Q r
    → ((m : M) → P m → P' m)
    → AllEnds P' Q r
AllEnds-map P P' Q (running a) h f = h
AllEnds-map P P' Q (stopped m) h f = f m h

pub AllEnds-then {ℓ} :
    {M A : Type 0} (P : M → Type ℓ) (Q Q' : A → Type ℓ) (r : Run M A)
    → AllEnds P Q r
    → ((a : A) → Q a → Q' a)
    → AllEnds P Q' r
AllEnds-then P Q Q' (running a) h f = f a h
AllEnds-then P Q Q' (stopped m) h f = h

pub and_then-AllEnds {ℓ} :
    {M A B : Type 0} (P : M → Type ℓ) (Q : A → Type ℓ) (R : B → Type ℓ) (r : Run M A)
    (next : A → Run M B)
    → AllEnds P Q r
    → ((a : A) → Q a → AllEnds P R (next a))
    → AllEnds P R (and_then r next)
unfolding and_then
and_then-AllEnds P Q R (running a) next h step = step a h
and_then-AllEnds P Q R (stopped m) next h step = h

pub note_panic-IsShared :
    (reason flags : ℕ) {s : Shared} → IsShared s → IsShared (note_panic reason flags s)
unfolding note_panic
note_panic-IsShared reason flags {s} h =
    let logged = ctl_fault_log-IsShared FaultSource.kernel reason flags s.ctl.system_stage h in
    (ctl_set_stage_lem Stage.panic
      (record { faults = logged.faults; traces = logged.traces; page = logged.page })).2

pub note_restart-IsShared :
    (reason : ℕ) {s : Shared} → IsShared s → IsShared (note_restart reason s)
unfolding note_restart
note_restart-IsShared reason h =
    let t = ctl_fault_log-IsShared _ _ _ _ (ctl_trace_log-IsShared _ _ _ _ h) in
    record { faults = t.faults; traces = t.traces; page = t.page }

-- The logs of the machine's shared structures are well-formed.
pub record HasLogs {bus : Bus} {cdc : Cdc} (m : Machine bus cdc) : Type 0 where
  pub logs : IsShared (m.shared)

-- A change of the page that leaves both rings alone.
abbrev pub KeepsRings : (SharedCtrl → SharedCtrl) → Type 0
KeepsRings f = (c : SharedCtrl) → ((f c).faults ≡ c.faults) × ((f c).traces ≡ c.traces)

pub note_online-KeepsRings : KeepsRings note_online
unfolding note_online ctl_clear_platform_error
note_online-KeepsRings c = (refl, refl)

-- The other cores keep the logs well-formed, as their own code does.
abbrev pub KeepsLogs : (Shared → Shared) → Type 0
KeepsLogs f = (s : Shared) → IsShared s → IsShared (f s)

pub usb_serial_init-KeepsRings :
    (cdc : Cdc) (ctl : SharedCtrl) (d : cdc.Device)
    → ((usb_serial_init cdc ctl d).0.faults ≡ ctl.faults)
      × ((usb_serial_init cdc ctl d).0.traces ≡ ctl.traces)
unfolding usb_serial_init ctl_set_platform_error ctl_clear_platform_error
usb_serial_init-KeepsRings cdc ctl d = elim (Bool-cases ((cdc.start d).0)) [
  | inl e ↦ rw e (refl, refl)
  | inr e ↦ rw e (refl, refl)
]

module _ {bus : Bus} {cdc : Cdc} where
  -- However a part of the kernel ends, they are.
  abbrev pub EndsWithLogs : Run (Machine bus cdc) (Machine bus cdc) → Type 0
  EndsWithLogs = AllEnds HasLogs HasLogs

  pub on_shared-HasLogs :
      (f : Shared → Shared) (m : Machine bus cdc)
      → ((s : Shared) → IsShared s → IsShared (f s))
      → HasLogs m
      → HasLogs (on_shared f m)
  unfolding on_shared
  on_shared-HasLogs f m keeps h = record { logs = keeps _ h.logs }

  pub on_ctl-HasLogs :
      (f : SharedCtrl → SharedCtrl) (m : Machine bus cdc)
      → KeepsRings f
      → HasLogs m
      → HasLogs (on_ctl f m)
  unfolding on_ctl
  on_ctl-HasLogs f m keeps h =
      let same = keeps (m.shared.ctl) in
      record {
        logs = record {
          faults = subst IsFaultLog (sym same.0) h.logs.faults;
          traces = subst IsTraceLog (sym same.1) h.logs.traces;
          page = h.logs.page;
        };
      }

  pub on_device-HasLogs :
      (f : bus.Device → bus.Device) (m : Machine bus cdc) → HasLogs m → HasLogs (on_device f m)
  unfolding on_device
  on_device-HasLogs f m h = record { logs = h.logs }

  pub say-HasLogs : (ps : List Piece) (m : Machine bus cdc) → HasLogs m → HasLogs (say ps m)
  unfolding say
  say-HasLogs ps m h = record {
    logs = record { faults = h.logs.faults; traces = h.logs.traces; page = h.logs.page };
  }

  pub trace-HasLogs :
      (code arg0 arg1 : ℕ) (m : Machine bus cdc) → HasLogs m → HasLogs (trace code arg0 arg1 m)
  unfolding trace
  trace-HasLogs code arg0 arg1 m h =
      on_shared-HasLogs _ _ (λ s g. ctl_trace_log-IsShared _ _ _ _ g) h

  pub stage-HasLogs :
      (stage : ℕ) (m : Machine bus cdc) → HasLogs m → HasLogs (on_shared (ctl_set_stage stage) m)
  stage-HasLogs stage m h = on_shared-HasLogs _ _ (λ s g. (ctl_set_stage_lem stage g).2) h

  pub kernel_panic-HasLogs :
      (reason flags : ℕ) (m : Machine bus cdc) → HasLogs m → HasLogs (kernel_panic reason flags m)
  unfolding kernel_panic
  kernel_panic-HasLogs reason flags m h =
      let said = say-HasLogs _ _ (
        on_shared-HasLogs (note_panic reason flags) m (λ s g. note_panic-IsShared reason flags g)
          h) in
      if_both HasLogs (bit_and flags SysFlag.watchdog_timeout != 0) (on_device-HasLogs _ _ said)
        said

  pub then-EndsWithLogs :
      (r : Run (Machine bus cdc) (Machine bus cdc))
      (next : Machine bus cdc → Run (Machine bus cdc) (Machine bus cdc))
      → EndsWithLogs r
      → ((a : Machine bus cdc) → HasLogs a → EndsWithLogs (next a))
      → EndsWithLogs (and_then r next)
  then-EndsWithLogs r next h step = and_then-AllEnds HasLogs HasLogs HasLogs r next h step
