-- ===== src/Cache/Tests.antt =====
-- A range over four lines.
use sg2002_kraken.Base.{true, arith, refl}
use sg2002_kraken.Kraken.Options.{Options, default_options}
use sg2002_kraken.Cache.{c906_dcache_clean_line, c906_dcache_inval_line}
use sg2002_kraken.Kraken.Config.{shared_ctrl_addr, worker_load_addr}
use sg2002_kraken.Layout.{persist_log_addr}
use sg2002_kraken.Cache.Structs.{
  ctl_flush, ctl_invalidate, persist_invalidate, persist_flush_header, persist_flush_record,
}
use sg2002_kraken.Cache.Separate.{Touches, calls_apart}

abbrev with_cache_ops : Options
with_cache_ops = record default_options { platform_dcache_ops = true }

calls_apart_example :
    Touches c906_dcache_clean_line shared_ctrl_addr persist_log_addr 33 (ctl_flush with_cache_ops)
    × Touches c906_dcache_inval_line shared_ctrl_addr persist_log_addr 33
        (ctl_invalidate with_cache_ops)
    × Touches c906_dcache_inval_line persist_log_addr worker_load_addr 129
        (persist_invalidate with_cache_ops)
    × Touches c906_dcache_clean_line persist_log_addr worker_load_addr 1
        (persist_flush_header with_cache_ops)
    × Touches c906_dcache_clean_line persist_log_addr worker_load_addr 2
        (persist_flush_record with_cache_ops 255)
calls_apart_example = calls_apart with_cache_ops 255 refl (omega arith)
