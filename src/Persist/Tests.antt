-- ===== src/Persist/Tests.antt =====
-- Runs of the persistent log.
use sg2002_kraken.Base.{◌≡◌, [], ◌∷◌, List}
use sg2002_kraken.Kraken.Structs.{SharedCtrl}
use sg2002_kraken.Persist.{Event, ctl_persist_clear, persist_valid, numbered}
use sg2002_kraken.Persist.Ring.{
  IsLog-IsPage, ctl_persist_clear-IsLog, visible, last_seq, append_all, number_from,
  append_all_view, entries,
}
use sg2002_kraken.Ctl.Zero.{zero_ctl}

abbrev stage_reached : Event
stage_reached = record {
  boot_count = 7;
  kind = 1;
  source = 0;
  code = 0;
  arg0 = 2;
  arg1 = 0;
  stage = 4;
}

abbrev two_events : List Event
two_events = stage_reached ∷ record stage_reached { stage = 5 } ∷ []

append_all_view_example :
    visible (append_all two_events ctl_persist_clear)
    ≡ numbered 1 stage_reached ∷ numbered 2 (record stage_reached { stage = 5 }) ∷ []
unfolding visible last_seq number_from ctl_persist_clear persist_valid entries
append_all_view_example = append_all_view two_events (IsLog-IsPage ctl_persist_clear-IsLog)

abbrev previous : SharedCtrl
previous = record zero_ctl { boot_count = 7; system_stage = 8; reset_reason = 5 }
