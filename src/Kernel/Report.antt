-- ===== src/Kernel/Report.antt =====
-- What the console commands of kernel/main.c print of the control page and of the persistent log, as
-- the calls of `console_puts` and `console_puthex` in their order.
pub mod Listing
use sg2002_kraken.Base.{
  ℕ, zero, suc, ◌+◌, ◌-◌, ◌^◌, List, [], ◌∷◌, ◌++◌, ◌==◌, if◌then◌else◌, bit_and, u32, get_or,
}
use Prim.Native.String.{String}
use sg2002_kraken.Kraken.Config.{fault_log_size, trace_log_size, persist_log_capacity}
use sg2002_kraken.Kraken.PersistKind
use sg2002_kraken.Kraken.Structs.{
  FaultRecord, TraceRecord, PersistRecord, Identity, SharedCtrl, PersistLog, Shared,
}
use sg2002_kraken.Ctl.Zero.{zero_fault, zero_trace, zero_identity}
use sg2002_kraken.Persist.{persist_valid, zero_record}
use sg2002_kraken.Console.{Piece, text, word}

pub print_status : Shared → List Piece
print_status s =
    text "[status] stage="
      ∷ word ctl.system_stage
      ∷ text " worker="
      ∷ word ctl.worker_state
      ∷ text " khb="
      ∷ word ctl.kernel_heartbeat
      ∷ text " whb="
      ∷ word ctl.worker_heartbeat
      ∷ text " rst="
      ∷ word ctl.worker_restart_count
      ∷ text " faults="
      ∷ word ctl.faults.count
      ∷ text " traps="
      ∷ word ctl.trap.count
      ∷ text " caps="
      ∷ word ctl.platform_caps
      ∷ text " perr="
      ∷ word ctl.platform_errors
      ∷ (if persist_valid log
          then text " plog=" ∷ word log.record_count ∷ text " pseq=" ∷ word log.next_seq ∷ []
          else [])
    ++ (text "\n" ∷ [])
  where
    open s use {ctl, log}

pub print_cpu_identity : String → Identity → List Piece
print_cpu_identity label identity =
    text "[cpu] "
    ∷ text label
    ∷ text " hart="
    ∷ word identity.hartid
    ∷ text " mvendor="
    ∷ word identity.mvendorid
    ∷ text " march="
    ∷ word identity.marchid
    ∷ text " mimp="
    ∷ word identity.mimpid
    ∷ text " misa="
    ∷ word identity.misa
    ∷ text "\n"
    ∷ []

pub print_cpu : SharedCtrl → List Piece
unfolding print_cpu_identity
print_cpu ctl =
    print_cpu_identity "boot" (get_or ctl.riscv_identity 0 zero_identity)
    ++ print_cpu_identity "kernel" (get_or ctl.riscv_identity 1 zero_identity)
    ++ print_cpu_identity "worker" (get_or ctl.riscv_identity 2 zero_identity)

pub print_trap : SharedCtrl → List Piece
print_trap ctl =
    if ctl.trap.count == 0
    then text "[trap] none\n" ∷ []
    else text "[trap] src="
      ∷ word ctl.trap.last_source
      ∷ text " cause="
      ∷ word ctl.trap.last_cause
      ∷ text " epc="
      ∷ word ctl.trap.last_epc
      ∷ text " tval="
      ∷ word ctl.trap.last_tval
      ∷ text " status="
      ∷ word ctl.trap.last_status
      ∷ text "\n"
      ∷ []

-- The loop over a ring of `size` slots, at index `i` with `left` entries to go, on 32-bit words.
pub log_lines {ℓ} :
    {A : Type ℓ} (line : A → List Piece) (d : A) (size : ℕ) (buf : List A) (head count : ℕ)
    → (left i : ℕ) → List Piece
log_lines line d size buf head count zero i = []
log_lines line d size buf head count (suc left) i =
    let slot = bit_and (u32 (u32 (head + size) + 2 ^ 32 - count + i)) (size - 1) in
    line (get_or buf slot d) ++ log_lines line d size buf head count left (i + 1)

pub fault_line : FaultRecord → List Piece
fault_line r =
    text "[fault] tag="
    ∷ word r.tag
    ∷ text " code="
    ∷ word r.code
    ∷ text " a0="
    ∷ word r.arg0
    ∷ text " a1="
    ∷ word r.arg1
    ∷ text "\n"
    ∷ []

pub print_faults : SharedCtrl → List Piece
unfolding log_lines fault_line
print_faults ctl =
    if ctl.faults.count == 0
    then text "[fault] none\n" ∷ []
    else log_lines fault_line zero_fault fault_log_size ctl.faults.entries ctl.faults.head
        ctl.faults.count ctl.faults.count 0

pub trace_line : TraceRecord → List Piece
trace_line r =
    text "[trace] src="
    ∷ word r.source
    ∷ text " code="
    ∷ word r.code
    ∷ text " a0="
    ∷ word r.arg0
    ∷ text " a1="
    ∷ word r.arg1
    ∷ text "\n"
    ∷ []

pub print_trace : SharedCtrl → List Piece
unfolding log_lines trace_line
print_trace ctl =
    if ctl.traces.count == 0
    then text "[trace] none\n" ∷ []
    else log_lines trace_line zero_trace trace_log_size ctl.traces.entries ctl.traces.head
        ctl.traces.count ctl.traces.count 0

pub persist_kind_name : ℕ → String
persist_kind_name kind =
    if kind == PersistKind.stage
    then "stage"
    else if kind == PersistKind.trace
    then "trace"
    else if kind == PersistKind.fault
    then "fault"
    else if kind == PersistKind.boot_summary
    then "boot"
    else "unknown"

pub persist_line : PersistRecord → List Piece
unfolding persist_kind_name
persist_line r =
    text "[persist] seq="
    ∷ word r.seq
    ∷ text " boot="
    ∷ word r.boot_count
    ∷ text " kind="
    ∷ text (persist_kind_name r.kind)
    ∷ text " src="
    ∷ word r.source
    ∷ text " code="
    ∷ word r.code
    ∷ text " a0="
    ∷ word r.arg0
    ∷ text " a1="
    ∷ word r.arg1
    ∷ text " stage="
    ∷ word r.stage
    ∷ text "\n"
    ∷ []

pub persist_header : PersistLog → List Piece
persist_header log =
    text "[persist] count="
    ∷ word log.record_count
    ∷ text " seq="
    ∷ word log.next_seq
    ∷ text " prev_boot="
    ∷ word log.last_boot_count
    ∷ text " prev_rst="
    ∷ word log.last_reset_reason
    ∷ text " prev_stage="
    ∷ word log.last_stage
    ∷ text " prev_flags="
    ∷ word log.last_system_flags
    ∷ text " prev_trace="
    ∷ word log.last_trace_source
    ∷ text ":"
    ∷ word log.last_trace_code
    ∷ text " prev_fault="
    ∷ word log.last_fault_tag
    ∷ text ":"
    ∷ word log.last_fault_code
    ∷ text "\n"
    ∷ []

pub print_persist : PersistLog → List Piece
unfolding persist_header log_lines persist_line
print_persist log =
    if persist_valid log
    then persist_header log
      ++ log_lines persist_line zero_record persist_log_capacity log.records log.write_head
          log.record_count log.record_count 0
    else text "[persist] none\n" ∷ []
