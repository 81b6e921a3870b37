-- ===== src/Kraken/PersistKind.antt =====
-- The kinds of persistent records. (`enum kraken_persist_event_kind` of kraken.h)
use Prim.Native.Nat.{ℕ}

abbrev pub stage : ℕ
stage = 1

abbrev pub trace : ℕ
trace = 2

abbrev pub fault : ℕ
fault = 3

abbrev pub boot_summary : ℕ
boot_summary = 4
