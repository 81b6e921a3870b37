-- ===== src/Cache/Structs.antt =====
-- shared/shared_state.c: the cache calls on the control page and on the persistent log.
use sg2002_kraken.Base.{ℕ, ◌+◌, ◌*◌, List}
use sg2002_kraken.Kraken.Config.{shared_ctrl_addr}
use sg2002_kraken.Kraken.Options.{Options}
use sg2002_kraken.Layout.{
  persist_log_addr, shared_ctrl_fields, persist_log_fields, persist_record_fields, size_of,
  offset_of,
}
use sg2002_kraken.Cache.{CacheStep, flush_dcache_range, inval_dcache_range}

unfoldable pub ctl_flush : Options → List CacheStep
unfolding flush_dcache_range size_of shared_ctrl_fields
ctl_flush o = flush_dcache_range o shared_ctrl_addr (shared_ctrl_addr + size_of shared_ctrl_fields)

unfoldable pub ctl_invalidate : Options → List CacheStep
unfolding inval_dcache_range size_of shared_ctrl_fields
ctl_invalidate o =
    inval_dcache_range o shared_ctrl_addr (shared_ctrl_addr + size_of shared_ctrl_fields)

unfoldable pub persist_invalidate : Options → List CacheStep
unfolding inval_dcache_range size_of persist_log_fields
persist_invalidate o =
    inval_dcache_range o persist_log_addr (persist_log_addr + size_of persist_log_fields)

unfoldable pub persist_flush_header : Options → List CacheStep
unfolding flush_dcache_range offset_of persist_log_fields
persist_flush_header o =
    flush_dcache_range o persist_log_addr
      (persist_log_addr + offset_of "records" persist_log_fields)

-- `&log->records[slot]`
unfoldable pub record_addr : (slot : ℕ) → ℕ
unfolding offset_of size_of persist_log_fields
record_addr slot =
    persist_log_addr + offset_of "records" persist_log_fields + slot * size_of persist_record_fields

unfoldable pub persist_flush_record : Options → (slot : ℕ) → List CacheStep
unfolding flush_dcache_range record_addr size_of
persist_flush_record o slot =
    flush_dcache_range o (record_addr slot) (record_addr slot + size_of persist_record_fields)
