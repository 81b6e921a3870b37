-- ===== src/TrapPanic/Tests.antt =====
-- A trap of the worker on a blank page.
use sg2002_kraken.Base.{◌≡◌, refl, [], ◌∷◌, ◌++◌, u32, last_of, bit, true, inl, arith}
use sg2002_kraken.Kraken.Config.{fault_log_size}
use sg2002_kraken.Kraken.Options.{default_options}
use sg2002_kraken.Kraken.CoreState
use sg2002_kraken.Kraken.Stage
use sg2002_kraken.Kraken.Structs.{FaultRecord}
use sg2002_kraken.Ctl.{ctl_valid, packed_mcause}
use sg2002_kraken.Ctl.Logs.{IsShared, fault_view}
use sg2002_kraken.Ctl.Tests.{blank, blank-IsPage}
use sg2002_kraken.TrapPanic.Report.{TrapImage, trap_report}
use sg2002_kraken.TrapPanic.Reader.{Registers, read_report, trap_report_lem}
use sg2002_kraken.TrapPanic.{trap_reason, usable, kraken_trap_panic, kraken_trap_panic_lem}

kraken_trap_panic_example :
    let t = kraken_trap_panic default_options 3 2 0x80380010 0 0x1800 blank in
    let faulted : FaultRecord = record {
      tag = 3;
      code = packed_mcause 2;
      arg0 = u32 0x80380010;
      arg1 = u32 0x1800;
    } in
    (ctl_valid (t.ctl) ≡ true)
    × (t.ctl.system_stage ≡ Stage.panic)
    × (t.ctl.reset_reason ≡ trap_reason)
    × (bit t.ctl.system_flags 7 ≡ 1)
    × (t.ctl.worker_state ≡ CoreState.fault)
    × (fault_view (t.ctl)
        ≡ last_of fault_log_size
            (fault_view ((usable default_options blank).ctl) ++ (faulted ∷ [])))
    × IsShared t
unfolding ctl_valid
kraken_trap_panic_example =
    kraken_trap_panic_lem default_options 3 2 0x80380010 0 0x1800 blank-IsPage (inl refl)

abbrev illegal : Registers
illegal = record { mcause = 2; mepc = 0x80380010; mtval = 0; mstatus = 0x1800 }

trap_report_example : read_report (trap_report TrapImage.worker 2 0x80380010 0 0x1800) ≡ illegal
trap_report_example =
    trap_report_lem TrapImage.worker illegal (omega arith) (omega arith) (omega arith) (omega arith)
