-- ===== src/Ctl/Progress.antt =====
-- `ctl_set_stage` of shared/shared_state.c.
use sg2002_kraken.Base.{ℕ, ◌≡◌, refl}
use sg2002_kraken.Kraken.PersistKind
use sg2002_kraken.Kraken.Structs.{SharedCtrl, Shared}
use sg2002_kraken.Persist.{Event, persist_append}
use sg2002_kraken.Persist.Ring.{IsLog-IsPage, persist_append-IsLog}
use sg2002_kraken.Ctl.{ctl_set_stage}
use sg2002_kraken.Ctl.Logs.{IsShared}

abbrev pub stage_event : ℕ → SharedCtrl → Event
stage_event stage ctl = record {
  boot_count = ctl.boot_count;
  kind = PersistKind.stage;
  source = 0;
  code = 0;
  arg0 = ctl.system_flags;
  arg1 = ctl.reset_reason;
  stage = stage;
}

-- On well-formed state, setting the stage changes that field of the page alone, appends one stage
-- record to the persistent log and keeps the invariant.
pub ctl_set_stage_lem :
    (stage : ℕ) {s : Shared}
    → IsShared s
    → let t = ctl_set_stage stage s in
      (t.ctl ≡ record (s.ctl) { system_stage = stage })
      × (t.log ≡ persist_append (stage_event stage (s.ctl)) (s.log))
      × IsShared t
unfolding ctl_set_stage
ctl_set_stage_lem stage h = (
  refl,
  refl,
  record {
    faults = h.faults;
    traces = h.traces;
    page = IsLog-IsPage (persist_append-IsLog _ h.page);
  },
)
