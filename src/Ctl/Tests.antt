-- ===== src/Ctl/Tests.antt =====
-- Runs of the control page.
use sg2002_kraken.Base.{
  ◌+◌, ◌^◌, ◌≡◌, refl, [], ◌∷◌, ◌++◌, arith, List, last_of, true, if◌then◌else◌,
}
use sg2002_kraken.Kraken.Config.{persist_log_capacity, fault_log_size, trace_log_size}
use sg2002_kraken.Kraken.Options.{default_options}
use sg2002_kraken.Kraken.Stage
use sg2002_kraken.Kraken.Structs.{Shared, FaultRecord, TraceRecord}
use sg2002_kraken.Persist.{zero_log, persist_valid}
use sg2002_kraken.Persist.Ring.{IsPage, visible, last_seq, number_from}
use sg2002_kraken.Persist.Boot.{note_events}
use sg2002_kraken.Ctl.{ctl_valid, next_boot_count, ctl_init_defaults, packed_mcause}
use sg2002_kraken.Ctl.Zero.{zero_ctl}
use sg2002_kraken.Ctl.Logs.{
  Entry, fault, trace, IsShared, fault_view, trace_view, log_all, events_of, log_all_views,
}
use sg2002_kraken.Ctl.Boot.{
  boot_event, ctl_init_defaults_lem, zero_faults-IsFaultLog, zero_traces-IsTraceLog,
}
use sg2002_kraken.Ctl.Trap.{packed_mcause_collide}

-- Memory that holds zeros.
abbrev pub blank : Shared
blank = record { ctl = zero_ctl; log = zero_log }

pub blank-IsPage : IsPage zero_log
unfolding persist_valid
blank-IsPage = record { slots = refl; head_in = λ e. omega arith; count_in = λ e. omega arith }

pub blank-IsShared : IsShared blank
blank-IsShared = record {
  faults = zero_faults-IsFaultLog;
  traces = zero_traces-IsTraceLog;
  page = blank-IsPage;
}

abbrev stalled : FaultRecord
stalled = record { tag = 2; code = 0xc0de0004; arg0 = 1; arg1 = 12 }

abbrev beat : TraceRecord
beat = record { source = 2; code = 0x2009; arg0 = 5; arg1 = 6 }

abbrev history : List Entry
history = trace beat ∷ fault stalled ∷ trace beat ∷ []

log_all_views_example :
    let t = log_all history blank in
    (fault_view (t.ctl) ≡ last_of fault_log_size (fault_view zero_ctl ++ (stalled ∷ [])))
    × (trace_view (t.ctl) ≡ last_of trace_log_size (trace_view zero_ctl ++ (beat ∷ beat ∷ [])))
    × (visible (t.log)
        ≡ last_of persist_log_capacity
            (visible zero_log ++ number_from (last_seq zero_log) (events_of 0 0 history)))
    × IsShared t
log_all_views_example = log_all_views history blank-IsShared

abbrev second_boot : Shared
second_boot = record {
  ctl = record zero_ctl { magic = 0x4b52414b; version = 6; boot_count = 4; system_stage = 7 };
  log = zero_log;
}

ctl_init_defaults_example :
    let t = ctl_init_defaults default_options second_boot in
    let old = if ctl_valid (second_boot.ctl) then second_boot.ctl.boot_count else 0 in
    let noted = if ctl_valid (second_boot.ctl) then note_events (second_boot.ctl) else [] in
    (ctl_valid (t.ctl) ≡ true)
    × (t.ctl.boot_count ≡ next_boot_count old)
    × (t.ctl.system_stage ≡ Stage.cold_reset)
    × (visible (t.log)
        ≡ last_of persist_log_capacity (
            visible zero_log
            ++ number_from (last_seq zero_log) (noted ++ (boot_event (next_boot_count old) ∷ []))))
    × IsShared t
ctl_init_defaults_example = ctl_init_defaults_lem default_options second_boot blank-IsPage

packed_mcause_collide_example : packed_mcause (2 ^ 31 + 7) ≡ packed_mcause (2 ^ 31 + 7 + 2 ^ 63)
packed_mcause_collide_example = packed_mcause_collide (2 ^ 31 + 7) (omega arith) (omega arith)
