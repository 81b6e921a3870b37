-- ===== src/Ctl/Logs.antt =====
-- The fault and trace rings of shared/shared_state.c, and the persistent log behind them.
use mathlib.Core.List.{append_assoc, append-nil}
use sg2002_kraken.Base.{
  ℕ, ◌+◌, ◌≤◌, ◌<◌, ◌≡◌, refl, sym, ap, ◌∙◌, List, [], ◌∷◌, ◌++◌, arith, bit_and, bit_and_mask, u32,
  length, length-set, log_view, last_of, log_view-step, last_of-last_of, last_of_short,
  length-window,
}
use sg2002_kraken.Kraken.Config.{fault_log_size, trace_log_size, persist_log_capacity}
use sg2002_kraken.Kraken.PersistKind
use sg2002_kraken.Kraken.Structs.{FaultRecord, TraceRecord, FaultLog, TraceLog, SharedCtrl, Shared}
use sg2002_kraken.Persist.{Event, persist_append}
use sg2002_kraken.Persist.Ring.{
  IsPage, IsLog-IsPage, persist_append-IsLog, visible, last_seq, append_all, append_all_view,
  number_from,
}
use sg2002_kraken.Ctl.{ctl_fault_log, ctl_trace_log}
use sg2002_kraken.Ctl.Zero.{zero_fault, zero_trace}

pub record IsFaultLog (l : FaultLog) : Type 0 where
  pub slots : length l.entries ≡ fault_log_size
  pub head_in : l.head < fault_log_size
  pub count_in : l.count ≤ fault_log_size

pub record IsTraceLog (l : TraceLog) : Type 0 where
  pub slots : length l.entries ≡ trace_log_size
  pub head_in : l.head < trace_log_size
  pub count_in : l.count ≤ trace_log_size

-- The two rings are in range, and the persistent page is well formed.
pub record IsShared (s : Shared) : Type 0 where
  pub faults : IsFaultLog (s.ctl.faults)
  pub traces : IsTraceLog (s.ctl.traces)
  pub page : IsPage (s.log)

-- The faults that the ring holds, oldest first.
unfoldable pub fault_view : SharedCtrl → List FaultRecord
fault_view ctl =
    log_view zero_fault fault_log_size ctl.faults.entries ctl.faults.head ctl.faults.count

unfoldable pub trace_view : SharedCtrl → List TraceRecord
trace_view ctl =
    log_view zero_trace trace_log_size ctl.traces.entries ctl.traces.head ctl.traces.count

-- An entry that any of the three images logs.
pub data Entry : Type 0 where
  fault : FaultRecord → Entry
  trace : TraceRecord → Entry

unfoldable pub log_entry : Entry → Shared → Shared
log_entry (fault r) s = ctl_fault_log r.tag r.code r.arg0 r.arg1 s
log_entry (trace r) s = ctl_trace_log r.source r.code r.arg0 r.arg1 s

abbrev pub faults_of : List Entry → List FaultRecord
faults_of [] = []
faults_of (fault r ∷ es) = r ∷ faults_of es
faults_of (trace r ∷ es) = faults_of es

abbrev pub traces_of : List Entry → List TraceRecord
traces_of [] = []
traces_of (fault r ∷ es) = traces_of es
traces_of (trace r ∷ es) = r ∷ traces_of es

-- The event by which the persistent log records an entry, at a boot and a stage.
abbrev pub event_of : ℕ → ℕ → Entry → Event
event_of boot stage (fault r) = record {
  boot_count = boot;
  kind = PersistKind.fault;
  source = r.tag;
  code = r.code;
  arg0 = r.arg0;
  arg1 = r.arg1;
  stage = stage;
}
event_of boot stage (trace r) = record {
  boot_count = boot;
  kind = PersistKind.trace;
  source = r.source;
  code = r.code;
  arg0 = r.arg0;
  arg1 = r.arg1;
  stage = stage;
}

abbrev pub events_of : ℕ → ℕ → List Entry → List Event
events_of boot stage [] = []
events_of boot stage (e ∷ es) = event_of boot stage e ∷ events_of boot stage es

-- What one entry does: the ring of its kind gains it, the other ring stays, the persistent log
-- gains its event, and the fields by which events are stamped stay.
record Logged (e : Entry) (s t : Shared) : Type 0 where
  inv : IsShared t
  fault_ring :
      fault_view (t.ctl) ≡ last_of fault_log_size (fault_view (s.ctl) ++ faults_of (e ∷ []))
  trace_ring :
      trace_view (t.ctl) ≡ last_of trace_log_size (trace_view (s.ctl) ++ traces_of (e ∷ []))
  persisted : t.log ≡ persist_append (event_of s.ctl.boot_count s.ctl.system_stage e) (s.log)
  boot : t.ctl.boot_count ≡ s.ctl.boot_count
  stage : t.ctl.system_stage ≡ s.ctl.system_stage

module _ (s : Shared) (h : IsShared s) where
  open s use {ctl.faults as fl, ctl.traces as tl}

  fault_slot : bit_and fl.head 15 ≡ fl.head
  fault_slot = omega (arith, h.faults.head_in, bit_and_mask 4 fl.head)

  trace_slot : bit_and tl.head 31 ≡ tl.head
  trace_slot = omega (arith, h.traces.head_in, bit_and_mask 5 tl.head)

  pub fault_short : fault_view (s.ctl) ≡ last_of fault_log_size (fault_view (s.ctl) ++ [])
  unfolding fault_view
  fault_short = sym (
      ap (last_of fault_log_size) (append-nil (fault_view (s.ctl)))
      ∙ last_of_short _ _
          (omega (arith, h.faults.count_in, length-window zero_fault 16 fl.entries _ fl.count)))

  trace_short : trace_view (s.ctl) ≡ last_of trace_log_size (trace_view (s.ctl) ++ [])
  unfolding trace_view
  trace_short = sym (
      ap (last_of trace_log_size) (append-nil (trace_view (s.ctl)))
      ∙ last_of_short _ _
          (omega (arith, h.traces.count_in, length-window zero_trace 32 tl.entries _ tl.count)))

  log_fault-Logged : (r : FaultRecord) → Logged (fault r) s (log_entry (fault r) s)
  unfolding log_entry ctl_fault_log fault_view trace_view
  log_fault-Logged r = record {
    inv = record {
      faults = record {
        slots = length-set fl.entries _ _ ∙ h.faults.slots;
        head_in = omega (arith, bit_and_mask 4 (u32 (bit_and fl.head 15 + 1)));
        count_in = ground (arith, h.faults.count_in);
      };
      traces = h.traces;
      page = IsLog-IsPage (persist_append-IsLog _ h.page);
    };
    fault_ring =
        log_view-step zero_fault fault_log_size fl.entries fl.head fl.count _ _ _ r h.faults.head_in
          (omega (arith, h.faults.slots)) h.faults.count_in fault_slot
          (omega
            (arith, h.faults.head_in, fault_slot, bit_and_mask 4 (u32 (bit_and fl.head 15 + 1))))
          (ground (arith, h.faults.count_in));
    trace_ring = trace_short;
    persisted = refl;
    boot = refl;
    stage = refl;
  }

  log_trace-Logged : (r : TraceRecord) → Logged (trace r) s (log_entry (trace r) s)
  unfolding log_entry ctl_trace_log fault_view trace_view
  log_trace-Logged r = record {
    inv = record {
      faults = h.faults;
      traces = record {
        slots = length-set tl.entries _ _ ∙ h.traces.slots;
        head_in = omega (arith, bit_and_mask 5 (u32 (bit_and tl.head 31 + 1)));
        count_in = ground (arith, h.traces.count_in);
      };
      page = IsLog-IsPage (persist_append-IsLog _ h.page);
    };
    fault_ring = fault_short;
    trace_ring =
        log_view-step zero_trace trace_log_size tl.entries tl.head tl.count _ _ _ r h.traces.head_in
          (omega (arith, h.traces.slots)) h.traces.count_in trace_slot
          (omega
            (arith, h.traces.head_in, trace_slot, bit_and_mask 5 (u32 (bit_and tl.head 31 + 1))))
          (ground (arith, h.traces.count_in));
    persisted = refl;
    boot = refl;
    stage = refl;
  }

log_entry-Logged : (e : Entry) {s : Shared} → IsShared s → Logged e s (log_entry e s)
log_entry-Logged (fault r) {s} h = log_fault-Logged s h r
log_entry-Logged (trace r) {s} h = log_trace-Logged s h r

pub ctl_fault_log-IsShared :
    (tag code arg0 arg1 : ℕ) {s : Shared}
    → IsShared s
    → IsShared (ctl_fault_log tag code arg0 arg1 s)
unfolding log_entry
ctl_fault_log-IsShared tag code arg0 arg1 h =
    (log_entry-Logged (fault (record { tag = tag; code = code; arg0 = arg0; arg1 = arg1 })) h).inv

pub ctl_trace_log-IsShared :
    (source code arg0 arg1 : ℕ) {s : Shared}
    → IsShared s
    → IsShared (ctl_trace_log source code arg0 arg1 s)
unfolding log_entry
ctl_trace_log-IsShared source code arg0 arg1 h =
    (log_entry-Logged (trace (record { source = source; code = code; arg0 = arg0; arg1 = arg1 }))
      h).inv

unfoldable pub log_all : List Entry → Shared → Shared
log_all [] s = s
log_all (e ∷ es) s = log_all es (log_entry e s)

-- What a run of entries leaves: three views of one history.
record Holds (es : List Entry) (s t : Shared) : Type 0 where
  inv : IsShared t
  fault_ring : fault_view (t.ctl) ≡ last_of fault_log_size (fault_view (s.ctl) ++ faults_of es)
  trace_ring : trace_view (t.ctl) ≡ last_of trace_log_size (trace_view (s.ctl) ++ traces_of es)
  persisted : t.log ≡ append_all (events_of s.ctl.boot_count s.ctl.system_stage es) (s.log)

faults_of-cons :
    (e : Entry) (es : List Entry) → faults_of (e ∷ es) ≡ faults_of (e ∷ []) ++ faults_of es
faults_of-cons (fault r) es = refl
faults_of-cons (trace r) es = refl

traces_of-cons :
    (e : Entry) (es : List Entry) → traces_of (e ∷ es) ≡ traces_of (e ∷ []) ++ traces_of es
traces_of-cons (fault r) es = refl
traces_of-cons (trace r) es = refl

-- The views compose: what is kept of what was kept is what is kept of the whole.
pub keep_last {ℓ} :
    {A : Type ℓ} (n : ℕ) (kept old new rest all : List A)
    → kept ≡ last_of n (old ++ new)
    → all ≡ new ++ rest
    → last_of n (kept ++ rest) ≡ last_of n (old ++ all)
keep_last n kept old new rest all p q =
    ap (λ l. last_of n (l ++ rest)) p
    ∙ last_of-last_of n (old ++ new) rest
    ∙ ap (last_of n) (append_assoc old new rest ∙ ap (λ l. old ++ l) (sym q))

log_all-Holds : (es : List Entry) {s : Shared} → IsShared s → Holds es s (log_all es s)
unfolding log_all append_all
log_all-Holds [] {s} h = record {
  inv = h;
  fault_ring = fault_short s h;
  trace_ring = trace_short s h;
  persisted = refl;
}
log_all-Holds (e ∷ es) {s} h =
    let one = log_entry-Logged e h in
    let rest = log_all-Holds es one.inv in
    record {
      inv = rest.inv;
      fault_ring =
          rest.fault_ring
          ∙ keep_last fault_log_size _ (fault_view (s.ctl)) _ _ _ one.fault_ring
              (faults_of-cons e es);
      trace_ring =
          rest.trace_ring
          ∙ keep_last trace_log_size _ (trace_view (s.ctl)) _ _ _ one.trace_ring
              (traces_of-cons e es);
      persisted = rest.persisted ∙ λ i.
          append_all (events_of (one.boot i) (one.stage i) es) (one.persisted i);
    }

-- On well-formed state, however fault and trace calls interleave, the fault ring holds the last
-- 16 faults, the trace ring the last 32 traces, and the persistent log shows the last 256 of what
-- it showed and of one numbered record for each call, in the order of the calls; the invariant is
-- kept.
pub log_all_views :
    (es : List Entry) {s : Shared}
    → IsShared s
    → let t = log_all es s in
      (fault_view (t.ctl) ≡ last_of fault_log_size (fault_view (s.ctl) ++ faults_of es))
      × (trace_view (t.ctl) ≡ last_of trace_log_size (trace_view (s.ctl) ++ traces_of es))
      × (visible (t.log)
          ≡ last_of persist_log_capacity (
              visible (s.log)
              ++ number_from (last_seq (s.log)) (events_of s.ctl.boot_count s.ctl.system_stage es)))
      × IsShared t
log_all_views es h =
    let all = log_all-Holds es h in
    (
      all.fault_ring,
      all.trace_ring,
      ap visible all.persisted ∙ append_all_view (events_of _ _ es) h.page,
      all.inv,
    )
