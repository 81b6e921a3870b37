-- ===== src/Layout/Tests.antt =====
-- The layout, computed.
use sg2002_kraken.Base.{◌≡◌, refl, true, false, some, eq_text}
use sg2002_kraken.Console.{codes}
use sg2002_kraken.Layout.{static_asserts, size_of, word, field_at, shared_ctrl_fields}
use sg2002_kraken.Layout.Apart.{AreApart}
use sg2002_kraken.Layout.Xdata.{XdataVar, xdata_lem}

asserts_hold : static_asserts ≡ true
unfolding static_asserts eq_text
asserts_hold = refl

ctl_size : size_of shared_ctrl_fields ≡ 0x808
unfolding size_of shared_ctrl_fields
ctl_size = refl

other_name : eq_text (codes "worker_state") (codes "trace_log") ≡ false
unfolding eq_text
other_name = refl

xdata_example :
    (field_at "worker_state" shared_ctrl_fields 0 ≡ some (0x0028, word "worker_state"))
    × AreApart (some (0x0028, word "worker_state")) (field_at "trace_log" shared_ctrl_fields 0)
xdata_example = xdata_lem XdataVar.worker_state "trace_log" other_name
