-- ===== src/Persist.antt =====
-- The persistent log of shared/shared_state.c: a ring of records that survives a warm reset.
-- In the default configuration the cache helpers are fences, which the model leaves out.
mod Tests
pub mod Ring
pub mod Boot
use sg2002_kraken.Base.{
  ℕ, ◌+◌, ◌-◌, Bool, ◌&&◌, List, ltb, ◌==◌, if◌then◌else◌, bit_and, u32, set, replicate,
}
use sg2002_kraken.Kraken.Config.{persist_magic, persist_version, persist_log_capacity}
use sg2002_kraken.Kraken.PersistKind
use sg2002_kraken.Kraken.Structs.{PersistRecord, PersistLog, SharedCtrl}

abbrev pub zero_record : PersistRecord
zero_record = record {
  seq = 0;
  boot_count = 0;
  kind = 0;
  source = 0;
  code = 0;
  arg0 = 0;
  arg1 = 0;
  stage = 0;
}

-- `sg2002_memset(log, 0, sizeof(*log))`
abbrev pub zero_log : PersistLog
zero_log = record {
  magic = 0;
  version = 0;
  write_head = 0;
  record_count = 0;
  next_seq = 0;
  last_boot_count = 0;
  last_reset_reason = 0;
  last_stage = 0;
  last_system_flags = 0;
  last_trace_source = 0;
  last_trace_code = 0;
  last_fault_tag = 0;
  last_fault_code = 0;
  records = replicate persist_log_capacity zero_record;
}

-- `ctl_persist_clear`; the log it overwrites does not matter.
pub ctl_persist_clear : PersistLog
ctl_persist_clear = record zero_log { magic = persist_magic; version = persist_version }

unfoldable pub persist_valid : PersistLog → Bool
persist_valid log = log.magic == persist_magic && log.version == persist_version

pub persist_ensure : PersistLog → PersistLog
unfolding persist_valid
persist_ensure log =
    if persist_valid log
    then log
    else record zero_log { magic = persist_magic; version = persist_version }

-- What `persist_append` is called with; the record adds the sequence number.
pub record Event : Type 0 where
  pub boot_count : ℕ
  pub kind : ℕ
  pub source : ℕ
  pub code : ℕ
  pub arg0 : ℕ
  pub arg1 : ℕ
  pub stage : ℕ

abbrev pub numbered : ℕ → Event → PersistRecord
numbered n e = record {
  seq = n;
  boot_count = e.boot_count;
  kind = e.kind;
  source = e.source;
  code = e.code;
  arg0 = e.arg0;
  arg1 = e.arg1;
  stage = e.stage;
}

-- The part of `persist_append` behind `persist_ensure`.
pub append_valid : Event → PersistLog → PersistLog
append_valid e log =
    let slot = bit_and log.write_head (persist_log_capacity - 1) in
    let seq = u32 (log.next_seq + 1) in
    record log {
      next_seq = seq;
      records = set log.records slot (numbered seq e);
      write_head = bit_and (u32 (slot + 1)) (persist_log_capacity - 1);
      record_count =
          if ltb log.record_count persist_log_capacity
          then u32 (log.record_count + 1)
          else log.record_count;
    }

pub persist_append : Event → PersistLog → PersistLog
unfolding append_valid persist_ensure
persist_append e log = append_valid e (persist_ensure log)

-- What the previous boot left in the control page.
pub persist_note_previous_boot : SharedCtrl → PersistLog → PersistLog
unfolding persist_append
persist_note_previous_boot ctl log =
    if ctl.boot_count == 0
    then log
    else persist_append
        (record {
          boot_count = ctl.boot_count;
          kind = PersistKind.boot_summary;
          source = ctl.traces.last_source;
          code = ctl.reset_reason;
          arg0 = ctl.system_stage;
          arg1 = ctl.system_flags;
          stage = ctl.system_stage;
        })
        (record (persist_ensure log) {
          last_boot_count = ctl.boot_count;
          last_reset_reason = ctl.reset_reason;
          last_stage = ctl.system_stage;
          last_system_flags = ctl.system_flags;
          last_trace_source = ctl.traces.last_source;
          last_trace_code = ctl.traces.last_code;
          last_fault_tag = ctl.faults.last_tag;
          last_fault_code = ctl.faults.last_code;
        })
