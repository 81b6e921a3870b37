-- ===== src/TrapPanic/Page.antt =====
-- shared/trap.c: what a trap of the worker leaves of a valid page.
use sg2002_kraken.Base.{ℕ, ◌≡◌, refl, true, arith, bit, bit_or, bit-bit_or, bit-le, bit-pow_ne}
use sg2002_kraken.Kraken.CoreState
use sg2002_kraken.Kraken.FaultSource
use sg2002_kraken.Kraken.SysFlag
use sg2002_kraken.Kraken.Options.{Options}
use sg2002_kraken.Kraken.Structs.{Shared}
use sg2002_kraken.Ctl.{ctl_valid, ctl_note_trap, ctl_trace_log, ctl_fault_log, ctl_set_stage}
use sg2002_kraken.TrapPanic.{usable, kraken_trap_panic}

alarm_bit_kept : (flags : ℕ) → bit (bit_or flags SysFlag.riscv_trap) 31 ≡ bit flags 31
alarm_bit_kept flags =
    omega (
      arith,
      bit-bit_or 31 flags SysFlag.riscv_trap,
      bit-le 31 flags,
      bit-pow_ne 7 31 (omega arith),
    )

-- The worker is marked faulty; the restart count and the watchdog's flag are as they were.
pub record IsTrapped (s t : Shared) : Type 0 where
  pub state : t.ctl.worker_state ≡ CoreState.fault
  pub restarts : t.ctl.worker_restart_count ≡ s.ctl.worker_restart_count
  pub alarm : bit t.ctl.system_flags 31 ≡ bit s.ctl.system_flags 31

pub kraken_trap_panic-IsTrapped :
    (o : Options) (mcause mepc mtval mstatus : ℕ) (s : Shared)
    → ctl_valid (s.ctl) ≡ true
    → IsTrapped s (kraken_trap_panic o FaultSource.worker mcause mepc mtval mstatus s)
unfolding kraken_trap_panic usable ctl_note_trap ctl_trace_log ctl_fault_log ctl_set_stage
kraken_trap_panic-IsTrapped o mcause mepc mtval mstatus s valid =
    rw valid (record { state = refl; restarts = refl; alarm = alarm_bit_kept s.ctl.system_flags })
