-- ===== src/Worker/Entry.antt =====
-- worker_rtos/main.c: what the worker leaves of the page before its loop.
use sg2002_kraken.Base.{◌≡◌, refl}
use sg2002_kraken.Kraken.Config.{magic}
use sg2002_kraken.Kraken.CoreState
use sg2002_kraken.Kraken.Structs.{Shared}
use sg2002_kraken.Ctl.{Csrs, ctl_trace_log, ctl_note_riscv_identity}
use sg2002_kraken.Worker.{worker_entry}

pub worker_entry-up :
    (csrs : Csrs) (s : Shared)
    → let c = (worker_entry csrs s).ctl in
      (c.worker_boot_ack ≡ magic)
      × (c.worker_state ≡ CoreState.idle)
      × (c.worker_cmd ≡ s.ctl.worker_cmd)
unfolding worker_entry ctl_trace_log ctl_note_riscv_identity
worker_entry-up csrs s = (refl, refl, refl)
