-- ===== src/Kernel/Trapped.antt =====
-- kernel/main.c with shared/trap.c: a trap of the worker, as the kernel sees it.
use sg2002_kraken.Base.{ℕ, ◌≡◌, ◌∙◌, inl, true, bit}
use sg2002_kraken.Mmio.{Bus}
use sg2002_kraken.Kraken.CoreState
use sg2002_kraken.Kraken.FaultSource
use sg2002_kraken.Kraken.Options.{Options}
use sg2002_kraken.Kraken.Structs.{Shared}
use sg2002_kraken.UsbSerial.{Cdc}
use sg2002_kraken.Ctl.{ctl_valid}
use sg2002_kraken.TrapPanic.{kraken_trap_panic}
use sg2002_kraken.TrapPanic.Page.{kraken_trap_panic-IsTrapped}
use sg2002_kraken.Kernel.{Env, Machine}
use sg2002_kraken.Kernel.Supervisor.{Watch, supervisor_round}
use sg2002_kraken.Kernel.Invariant.{AllEnds}
use sg2002_kraken.Kernel.Restarts.{Panicked}
use sg2002_kraken.Kernel.Revive.{Revived, supervisor_round_restarts}

-- A trap of the worker on a valid page with no alarm, whatever its cause, leaves the worker in
-- its fault state and the restart count as it was; the supervisor's round that begins with this
-- page restarts the worker once or panics, if the other cores leave the restart count.
pub worker_trap_restarts :
    (bus : Bus) (cdc : Cdc) (o : Options) (env : Env) (w : Watch) (m : Machine bus cdc)
    (mcause mepc mtval mstatus : ℕ)
    → ((i : ℕ) (s : Shared) → (env i s).ctl.worker_restart_count ≡ s.ctl.worker_restart_count)
    → ctl_valid (m.shared.ctl) ≡ true
    → bit m.shared.ctl.system_flags 31 ≡ 0
    → let trapped = record m {
      shared = kraken_trap_panic o FaultSource.worker mcause mepc mtval mstatus m.shared;
    } in
      (trapped.shared.ctl.worker_state ≡ CoreState.fault)
      × (trapped.shared.ctl.worker_restart_count ≡ m.shared.ctl.worker_restart_count)
      × AllEnds Panicked (Revived trapped) (supervisor_round o env (w, trapped))
worker_trap_restarts bus cdc o env w m mcause mepc mtval mstatus keeps valid quiet =
    let h = kraken_trap_panic-IsTrapped o mcause mepc mtval mstatus (m.shared) valid in
    let trapped = record m {
      shared = kraken_trap_panic o FaultSource.worker mcause mepc mtval mstatus m.shared;
    } in
    (
      h.state,
      h.restarts,
      supervisor_round_restarts bus cdc o env w trapped keeps (h.alarm ∙ quiet) (inl h.state),
    )
