-- ===== src/Persist/Boot.antt =====
-- The summary of the previous boot, `persist_note_previous_boot` of shared/shared_state.c.
use sg2002_kraken.Base.{
  ◌≡◌, ◌≢◌, refl, sym, ap, ap₂, ◌∙◌, subst, ℕ_discrete, true, List, [], ◌∷◌, ◌++◌, arith, ◌==◌,
  if◌then◌else◌, last_of,
}
use sg2002_kraken.Kraken.Config.{persist_log_capacity}
use sg2002_kraken.Kraken.PersistKind
use sg2002_kraken.Kraken.Structs.{PersistLog, SharedCtrl}
use sg2002_kraken.Persist.{
  Event, persist_valid, persist_ensure, append_valid, persist_append, persist_note_previous_boot,
}
use sg2002_kraken.Persist.Ring.{
  IsPage, IsLog, IsLog-IsPage, persist_ensure-IsLog, visible, last_seq, number_from, entries-ensure,
  next_seq-ensure, entries, visible-of_IsLog, last_seq-of_IsLog, Appended, Appended-nil,
  Appended-one, seq_after,
}

abbrev pub summary : SharedCtrl → Event
summary ctl = record {
  boot_count = ctl.boot_count;
  kind = PersistKind.boot_summary;
  source = ctl.traces.last_source;
  code = ctl.reset_reason;
  arg0 = ctl.system_stage;
  arg1 = ctl.system_flags;
  stage = ctl.system_stage;
}

-- The events that the previous boot leaves.
pub note_events : SharedCtrl → List Event
note_events ctl = if ctl.boot_count == 0 then [] else summary ctl ∷ []

-- The snapshot in the header of the log.
pub record Snapshot (ctl : SharedCtrl) (log : PersistLog) : Type 0 where
  pub boot_count : log.last_boot_count ≡ ctl.boot_count
  pub reset_reason : log.last_reset_reason ≡ ctl.reset_reason
  pub stage : log.last_stage ≡ ctl.system_stage
  pub flags : log.last_system_flags ≡ ctl.system_flags
  pub trace_source : log.last_trace_source ≡ ctl.traces.last_source
  pub trace_code : log.last_trace_code ≡ ctl.traces.last_code
  pub fault_tag : log.last_fault_tag ≡ ctl.faults.last_tag
  pub fault_code : log.last_fault_code ≡ ctl.faults.last_code

-- On a log, the fields of the header that `persist_append` leaves alone.
header-append :
    (e : Event) (log : PersistLog) (ctl : SharedCtrl)
    → persist_valid log ≡ true
    → Snapshot ctl log
    → Snapshot ctl (persist_append e log)
unfolding persist_append persist_ensure append_valid
header-append e log ctl v h = rw v (record {
  boot_count = h.boot_count;
  reset_reason = h.reset_reason;
  stage = h.stage;
  flags = h.flags;
  trace_source = h.trace_source;
  trace_code = h.trace_code;
  fault_tag = h.fault_tag;
  fault_code = h.fault_code;
})

module _ (ctl : SharedCtrl) (log : PersistLog) (h : IsPage log) where
  stamped : PersistLog
  stamped = record (persist_ensure log) {
    last_boot_count = ctl.boot_count;
    last_reset_reason = ctl.reset_reason;
    last_stage = ctl.system_stage;
    last_system_flags = ctl.system_flags;
    last_trace_source = ctl.traces.last_source;
    last_trace_code = ctl.traces.last_code;
    last_fault_tag = ctl.faults.last_tag;
    last_fault_code = ctl.faults.last_code;
  }

  stamped-IsLog : IsLog stamped
  unfolding stamped persist_valid
  stamped-IsLog =
      let e = persist_ensure-IsLog h in
      record { valid = e.valid; slots = e.slots; head_in = e.head_in; count_in = e.count_in }

  stamped-Snapshot : Snapshot ctl stamped
  unfolding stamped
  stamped-Snapshot = record {
    boot_count = refl;
    reset_reason = refl;
    stage = refl;
    flags = refl;
    trace_source = refl;
    trace_code = refl;
    fault_tag = refl;
    fault_code = refl;
  }

  visible-stamped : visible stamped ≡ visible log
  visible-stamped = visible-of_IsLog stamped-IsLog ∙ same ∙ entries-ensure log
    where
      same : entries stamped ≡ entries (persist_ensure log)
      same = unfold stamped entries in refl

  last_seq-stamped : last_seq stamped ≡ last_seq log
  last_seq-stamped = last_seq-of_IsLog stamped-IsLog ∙ same ∙ next_seq-ensure log
    where
      same : stamped.next_seq ≡ (persist_ensure log).next_seq
      same = unfold stamped in refl

  no_note : ctl.boot_count ≡ 0 → persist_note_previous_boot ctl log ≡ log
  unfolding persist_note_previous_boot
  no_note e = ground arith

  noted :
      ctl.boot_count ≢ 0 → persist_note_previous_boot ctl log ≡ persist_append (summary ctl) stamped
  unfolding persist_note_previous_boot stamped
  noted ne = ground arith

-- On a well-formed log and a page whose boot count is not 0, the log's header holds a snapshot of
-- that page and the log gains its summary behind what it showed, up to the last 256; the log
-- stays well-formed.
persist_note_previous_boot_lem :
    (ctl : SharedCtrl) {log : PersistLog}
    → IsPage log
    → ctl.boot_count ≢ 0
    → let after = persist_note_previous_boot ctl log in
      Snapshot ctl after
      × (visible after
          ≡ last_of persist_log_capacity
              (visible log ++ number_from (last_seq log) (summary ctl ∷ [])))
      × IsPage after
persist_note_previous_boot_lem ctl {log} h ne =
    let one = Appended-one (summary ctl) (IsLog-IsPage (stamped-IsLog ctl log h)) in
    rw (noted ctl log h ne) (
      header-append (summary ctl) _ ctl (stamped-IsLog ctl log h).valid
          (stamped-Snapshot ctl log h),
      one.view
          ∙ ap₂ (λ l n. last_of persist_log_capacity (l ++ number_from n (summary ctl ∷ [])))
              (visible-stamped ctl log h) (last_seq-stamped ctl log h),
      one.page,
    )

-- In either case the log is the old one with the events of the previous boot appended.
pub persist_note_previous_boot-Appended :
    (ctl : SharedCtrl) {log : PersistLog}
    → IsPage log
    → Appended (note_events ctl) log (persist_note_previous_boot ctl log)
unfolding note_events
persist_note_previous_boot-Appended ctl {log} h = elim (ℕ_discrete ctl.boot_count 0) [
  | yes e ↦
      rw (no_note ctl log h e) (subst (λ es. Appended es log log) (sym (quiet e)) (Appended-nil h))
  | no ne ↦
      let one = Appended-one (summary ctl) (IsLog-IsPage (stamped-IsLog ctl log h)) in
      let stamp = stamped ctl log h in
      rw (noted ctl log h ne) (
        subst (λ es. Appended es log (persist_append (summary ctl) stamp)) (sym (loud ne))
          (record {
            page = one.page;
            view =
                one.view
                ∙ ap₂ (λ l n. last_of persist_log_capacity (l ++ number_from n (summary ctl ∷ [])))
                    (visible-stamped ctl log h) (last_seq-stamped ctl log h);
            seq = one.seq ∙ ap (λ n. seq_after n (summary ctl ∷ [])) (last_seq-stamped ctl log h);
          }))
]
  where
    quiet : ctl.boot_count ≡ 0 → note_events ctl ≡ []
    quiet e = ground arith

    loud : ctl.boot_count ≢ 0 → note_events ctl ≡ summary ctl ∷ []
    loud ne = ground arith
