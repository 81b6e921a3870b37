-- ===== src/Kernel/Booted.antt =====
-- kernel/main.c with worker_rtos/main.c: the boot of the two.
use sg2002_kraken.Base.{
  ℕ, zero, suc, ◌+◌, ◌<◌, ◌≡◌, false, refl, subst, ap, ◌∙◌, arith, bit, true, false, [], ◌∷◌, ◌==◌,
  if◌then◌else◌, leb,
}
use sg2002_kraken.Mmio.{Bus}
use sg2002_kraken.Kraken.Config.{magic, worker_ack_spins}
use sg2002_kraken.Kraken.Cmd
use sg2002_kraken.Kraken.CoreState
use sg2002_kraken.Kraken.Stage
use sg2002_kraken.Kraken.TraceCode
use sg2002_kraken.Kraken.Options.{Options}
use sg2002_kraken.Kraken.Structs.{SharedCtrl, Shared}
use sg2002_kraken.UsbSerial.{Cdc}
use sg2002_kraken.Console.{text}
use sg2002_kraken.Ctl.{Csrs, ctl_set_stage, ctl_trace_log, ctl_clear_platform_error}
use sg2002_kraken.Kernel.{
  Env, Machine, is_online, note_online, on_shared, on_ctl, on_device, trace, say,
}
use sg2002_kraken.Kernel.Restart.{wait_from, wait_for_worker_ack, ensure_watchdog_started}
use sg2002_kraken.Kernel.Main.{kernel_online, finish_boot, kernel_boot}
use sg2002_kraken.Kernel.Invariant.{if_both, AllEnds, AllEnds-then, and_then-AllEnds}
use sg2002_kraken.Kernel.Ack.{wait_from-online, note_online-Online}
use sg2002_kraken.Worker as Core
use sg2002_kraken.Worker.Commands.{worker_round_lem, phase_after, state_after, slot_after}
use sg2002_kraken.Worker.Entry.{worker_entry-up}
use sg2002_kraken.Kernel.Offer.{IsOffered, NoWorker, boot_worker-IsOffered}

-- The worker is up and has its boot command before it.
pub record IsUp (c : SharedCtrl) : Type 0 where
  pub ack : c.worker_boot_ack ≡ magic
  pub state : c.worker_state ≡ CoreState.idle
  pub cmd : c.worker_cmd ≡ Cmd.boot
  pub restarting : bit c.system_flags 5 ≡ 0
  pub stale : bit c.system_flags 4 ≡ 0

is_online-of :
    (c : SharedCtrl)
    → c.worker_boot_ack ≡ magic
    → c.worker_state ≡ CoreState.idle
    → is_online c ≡ true
unfolding is_online
is_online-of c ack state = ground (arith, ack, state)

not_online : (c : SharedCtrl) → c.worker_boot_ack ≡ 0 → is_online c ≡ false
unfolding is_online
not_online c ack = ground (arith, ack)

module _ {bus : Bus} {cdc : Cdc} where
  wait_from-down :
      (env : Env) (left i : ℕ) (m : Machine bus cdc)
      → is_online ((env i (m.shared)).ctl) ≡ false
      → wait_from env (suc left) i m ≡ wait_from env left (i + 1) (on_shared (env i) m)
  unfolding wait_from on_shared
  wait_from-down env left i m e = rw e refl

  -- The worker has just run its entry.
  entered-IsUp :
      (csrs : Csrs) (env : Env) (i : ℕ) (m : Machine bus cdc)
      → ((s : Shared) → env i s ≡ Core.worker_entry csrs s)
      → IsOffered (m.shared.ctl)
      → let t =
          say (text "[kernel] worker online\n" ∷ []) (on_ctl note_online (on_shared (env i) m)) in
        IsUp (t.shared.ctl)
  unfolding say on_ctl on_shared note_online ctl_clear_platform_error
  entered-IsUp csrs env i m enters h =
      let up = worker_entry-up csrs (m.shared) in
      let same = enters (m.shared) in
      let online = note_online-Online (on_shared (env i) m) in
      record {
        ack = ap (λ (s : Shared). s.ctl.worker_boot_ack) same ∙ up.0;
        state = ap (λ (s : Shared). s.ctl.worker_state) same ∙ up.1;
        cmd = ap (λ (s : Shared). s.ctl.worker_cmd) same ∙ up.2 ∙ h.cmd;
        restarting = online.restarting;
        stale = online.stale;
      }

  wait_from-IsUp :
      (csrs : Csrs) (env : Env) (n k left i : ℕ) (m : Machine bus cdc)
      → ((j : ℕ) (s : Shared) → j < k → IsOffered (s.ctl) → IsOffered ((env j s).ctl))
      → ((s : Shared) → env k s ≡ Core.worker_entry csrs s)
      → i + n ≡ k
      → n < left
      → IsOffered (m.shared.ctl)
      → AllEnds NoWorker (λ (t : Machine bus cdc). IsUp (t.shared.ctl)) (wait_from env left i m)
  unfolding on_shared
  wait_from-IsUp csrs env n k zero i m keeps enters e lt h = absurd (omega arith)
  wait_from-IsUp csrs env zero k (suc left) i m keeps enters e lt h =
      let enters_here =
        subst (λ j. (s : Shared) → env j s ≡ Core.worker_entry csrs s) {x = k} {y = i} (omega arith)
          enters in
      let up = worker_entry-up csrs (m.shared) in
      let same = enters_here (m.shared) in
      rw
        (wait_from-online env left i m (
          is_online-of ((env i (m.shared)).ctl)
            (ap (λ (s : Shared). s.ctl.worker_boot_ack) same ∙ up.0)
            (ap (λ (s : Shared). s.ctl.worker_state) same ∙ up.1)))
        (entered-IsUp csrs env i m enters_here h)
  wait_from-IsUp csrs env (suc n) k (suc left) i m keeps enters e lt h =
      let kept = keeps i (m.shared) (omega arith) h in
      rw (wait_from-down env left i m (not_online _ (kept.ack))) (
        wait_from-IsUp csrs env n k left (i + 1) (on_shared (env i) m) keeps enters (omega arith)
          (omega arith) kept)

  waiting-IsOffered :
      (a b : ℕ) (m : Machine bus cdc)
      → IsOffered (m.shared.ctl)
      → let t = say (text "[kernel] wait worker ack\n" ∷ []) (
          on_shared
            (ctl_set_stage Stage.worker_wait_ack)
            (trace TraceCode.kernel_wait_ack a b m)) in
        IsOffered (t.shared.ctl)
  unfolding say trace on_shared ctl_trace_log ctl_set_stage
  waiting-IsOffered a b m h = record { ack = h.ack; cmd = h.cmd }

  ensure_watchdog_started-IsUp :
      (m : Machine bus cdc) → IsUp (m.shared.ctl) → IsUp ((ensure_watchdog_started m).shared.ctl)
  unfolding ensure_watchdog_started say on_shared on_device ctl_set_stage
  ensure_watchdog_started-IsUp m h =
      if_both (λ (t : Machine bus cdc). IsUp (t.shared.ctl))
        (leb Stage.watchdog_boot m.shared.ctl.system_stage) h
        (record {
          ack = h.ack;
          state = h.state;
          cmd = h.cmd;
          restarting = h.restarting;
          stale = h.stale;
        })

  trace-IsUp :
      (code a b : ℕ) (m : Machine bus cdc)
      → IsUp (m.shared.ctl)
      → IsUp ((trace code a b m).shared.ctl)
  unfolding trace on_shared ctl_trace_log
  trace-IsUp code a b m h = record {
    ack = h.ack;
    state = h.state;
    cmd = h.cmd;
    restarting = h.restarting;
    stale = h.stale;
  }

  -- The kernel is at its loop, and the worker is up.
  pub record IsRunning (t : Machine bus cdc) : Type 0 where
    pub stage : t.shared.ctl.system_stage ≡ Stage.os_running
    pub worker : IsUp (t.shared.ctl)

  kernel_online-IsRunning :
      (o : Options) (m : Machine bus cdc) → IsUp (m.shared.ctl) → IsRunning (kernel_online o m)
  unfolding kernel_online say on_device trace on_shared ctl_trace_log ctl_set_stage
  kernel_online-IsRunning o m h =
      let up =
        ensure_watchdog_started-IsUp
          (trace TraceCode.kernel_ack_ok m.shared.ctl.worker_state m.shared.ctl.worker_boot_ack m)
          (trace-IsUp TraceCode.kernel_ack_ok m.shared.ctl.worker_state m.shared.ctl.worker_boot_ack
            m h) in
      record {
        stage = refl;
        worker = record {
          ack = up.ack;
          state = up.state;
          cmd = up.cmd;
          restarting = up.restarting;
          stale = up.stale;
        };
      }

  finish_boot-IsRunning :
      (o : Options) (csrs : Csrs) (env : Env) (k : ℕ) (booted : Machine bus cdc)
      → ((j : ℕ) (s : Shared) → j < k → IsOffered (s.ctl) → IsOffered ((env j s).ctl))
      → ((s : Shared) → env k s ≡ Core.worker_entry csrs s)
      → k < worker_ack_spins
      → IsOffered (booted.shared.ctl)
      → AllEnds NoWorker IsRunning (finish_boot o env booted)
  unfolding finish_boot wait_for_worker_ack
  finish_boot-IsRunning o csrs env k booted keeps enters soon h =
      and_then-AllEnds NoWorker (λ (t : Machine bus cdc). IsUp (t.shared.ctl)) IsRunning _ _
        (wait_from-IsUp csrs env k k worker_ack_spins 0 _ keeps enters (omega arith) soon
          (waiting-IsOffered _ _ booted h))
        (λ t up. kernel_online-IsRunning o t up)

-- The worker's next round serves the kernel's boot command.
pub record ServesBoot (wenv : Core.Env) (s : Shared) : Type 0 where
  pub phase : (Core.worker_round wenv s).0 ≡ Core.serving
  pub state : (Core.worker_round wenv s).1.ctl.worker_state ≡ CoreState.idle
  pub slot : (Core.worker_round wenv s).1.ctl.worker_cmd ≡ Cmd.none
  pub acked :
      (Core.worker_round wenv s).1.ctl.worker_cmd_ack
      ≡ (Core.worker_round wenv s).1.ctl.kernel_cmd_seq

worker_round-ServesBoot :
    (wenv : Core.Env) (s : Shared) → s.ctl.worker_cmd ≡ Cmd.boot → ServesBoot wenv s
worker_round-ServesBoot wenv s e =
    let h = worker_round_lem wenv s in
    record {
      phase = h.0 ∙ ap (λ (c : ℕ). phase_after c) e;
      state = h.1 ∙ ap (λ (c : ℕ). state_after c s.ctl.worker_state) e;
      slot = h.2 ∙ ap (λ (c : ℕ). slot_after c) e;
      acked =
          h.3
          ∙ ap
              (λ (c : ℕ).
                if c == Cmd.none
                then s.ctl.worker_cmd_ack
                else (Core.worker_round wenv s).1.ctl.kernel_cmd_seq)
              e;
    }

-- If the worker runs its entry before a look of the kernel's wait, and until then the other cores
-- leave a page without an acknowledgement and with the boot command as such, the kernel's boot
-- ends: it is at its loop in the running stage, with the worker up and idle and the flags of a
-- stale or restarting worker off, and the worker's next round serves the boot command and frees
-- the slot; or it has panicked because the image of the worker is not there or its core was not
-- released.
pub kernel_boot_lem :
    (bus : Bus) (cdc : Cdc) (o : Options) (csrs : Csrs) (env : Env) (wenv : Core.Env)
    (k hart dtb : ℕ) (m : Machine bus cdc)
    → ((j : ℕ) (s : Shared) → j < k → IsOffered (s.ctl) → IsOffered ((env j s).ctl))
    → ((s : Shared) → env k s ≡ Core.worker_entry csrs s)
    → k < worker_ack_spins
    → AllEnds NoWorker
        (λ (t : Machine bus cdc). IsRunning t × ServesBoot wenv (t.shared))
        (kernel_boot o env hart dtb m)
unfolding kernel_boot
kernel_boot_lem bus cdc o csrs env wenv k hart dtb m keeps enters soon =
    and_then-AllEnds NoWorker (λ (t : Machine bus cdc). IsOffered (t.shared.ctl))
      (λ (t : Machine bus cdc). IsRunning t × ServesBoot wenv (t.shared)) _ _
      (boot_worker-IsOffered o _)
      (λ t h.
        AllEnds-then NoWorker IsRunning
          (λ (u : Machine bus cdc). IsRunning u × ServesBoot wenv (u.shared)) _
          (finish_boot-IsRunning o csrs env k t keeps enters soon h)
          (λ u r. (r, worker_round-ServesBoot wenv (u.shared) (r.worker.cmd))))
