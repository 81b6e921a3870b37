-- ===== src/Cache/Separate.antt =====
-- shared/shared_state.c: which lines the cache calls touch.
use sg2002_kraken.Base.{
  ℕ, ◌+◌, ◌*◌, ◌/◌, ◌≤◌, ◌<◌, ◌≡◌, refl, List, [], ◌∷◌, ◌++◌, true, arith, eq_text,
}
use sg2002_kraken.Kraken.Config.{shared_ctrl_addr, worker_load_addr, persist_log_capacity}
use sg2002_kraken.Kraken.Options.{Options}
use sg2002_kraken.Layout.{
  persist_log_addr, size_of, offset_of, shared_ctrl_fields, persist_log_fields,
}
use sg2002_kraken.Cache.{CacheStep, fence_rw, c906_dcache_clean_line, c906_dcache_inval_line}
use sg2002_kraken.Cache.Lines.{lines, line_count, dcache_ranges_lem}
use sg2002_kraken.Cache.Structs.{
  ctl_flush, ctl_invalidate, persist_invalidate, persist_flush_header, persist_flush_record,
  record_addr,
}

-- The call runs `step` on lines that lie between two addresses, at least one and `most` at most.
pub record Touches (step : ℕ → CacheStep) (lo hi most : ℕ) (call : List CacheStep) : Type 0 where
  pub first : ℕ
  pub count : ℕ
  pub steps : call ≡ fence_rw ∷ lines step first count ++ fence_rw ∷ []
  pub above : lo ≤ first * 64
  pub below : (first + count) * 64 ≤ hi
  pub some_line : 0 < count
  pub few : count ≤ most

touches :
    (step : ℕ → CacheStep) (lo hi most start end : ℕ) (call : List CacheStep)
    → call ≡ fence_rw ∷ lines step (start / 64) (line_count start end) ++ fence_rw ∷ []
    → (start < end)
      × (lo ≤ start / 64 * 64)
      × ((start / 64 + line_count start end) * 64 ≤ hi)
      × (line_count start end ≤ most)
    → Touches step lo hi most call
touches step lo hi most start end call steps h = record {
  first = start / 64;
  count = line_count start end;
  steps = steps;
  above = h.1;
  below = h.2;
  some_line = omega (arith, h.0);
  few = h.3;
}

record_addr_lem : (slot : ℕ) → record_addr slot ≡ 0x80310034 + slot * 32
unfolding record_addr offset_of size_of persist_log_fields eq_text
record_addr_lem slot = refl

-- With the cache operations on, the calls on the control page touch at most 33 lines, all from
-- the page up to the log; those on the log and its header, and the flush of a record, touch at
-- most 129, 1 and 2 lines, all from the log up to the worker's image.
pub calls_apart :
    (o : Options) (slot : ℕ)
    → o.platform_dcache_ops ≡ true
    → slot < persist_log_capacity
    → Touches c906_dcache_clean_line shared_ctrl_addr persist_log_addr 33 (ctl_flush o)
      × Touches c906_dcache_inval_line shared_ctrl_addr persist_log_addr 33 (ctl_invalidate o)
      × Touches c906_dcache_inval_line persist_log_addr worker_load_addr 129 (persist_invalidate o)
      × Touches c906_dcache_clean_line persist_log_addr worker_load_addr 1 (persist_flush_header o)
      × Touches c906_dcache_clean_line persist_log_addr worker_load_addr 2
          (persist_flush_record o slot)
unfolding ctl_flush ctl_invalidate persist_invalidate persist_flush_header persist_flush_record
    offset_of size_of shared_ctrl_fields persist_log_fields eq_text
calls_apart o slot on fits =
    let page = dcache_ranges_lem o 0x80300000 0x80300808 on (omega arith) (omega arith) in
    let log = dcache_ranges_lem o 0x80310000 0x80312034 on (omega arith) (omega arith) in
    let header = dcache_ranges_lem o 0x80310000 0x80310034 on (omega arith) (omega arith) in
    let a = record_addr_lem slot in
    let one =
      dcache_ranges_lem o (record_addr slot) (record_addr slot + 32) on (omega arith)
        (omega arith) in
    (
      touches _ _ _ _ 0x80300000 0x80300808 _ page.0 (omega arith),
      touches _ _ _ _ 0x80300000 0x80300808 _ page.1 (omega arith),
      touches _ _ _ _ 0x80310000 0x80312034 _ log.1 (omega arith),
      touches _ _ _ _ 0x80310000 0x80310034 _ header.0 (omega arith),
      touches _ _ _ _ (record_addr slot) (record_addr slot + 32) _ one.0 (omega arith),
    )
