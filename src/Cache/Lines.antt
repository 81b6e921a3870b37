-- ===== src/Cache/Lines.antt =====
-- shared/cache.c: the lines that a range of addresses takes.
use sg2002_kraken.Base.{
  ℕ, zero, suc, ◌+◌, ◌-◌, ◌*◌, ◌/◌, ◌%◌, ◌^◌, ◌≤◌, ◌<◌, ◌≡◌, refl, ap, List, [], ◌∷◌, ◌++◌, ltb,
  leb, true, false, arith,
}
use sg2002_kraken.Kraken.Options.{Options}
use sg2002_kraken.Cache.{
  CacheStep, fence_rw, c906_dcache_clean_line, c906_dcache_inval_line, each_line, dcache_range,
  flush_dcache_range, inval_dcache_range, sg2002_platform_flush_dcache_line,
  sg2002_platform_inval_dcache_line,
}

-- One step for each of the n lines from line k on.
abbrev pub lines : (ℕ → CacheStep) → (k n : ℕ) → List CacheStep
lines step k zero = []
lines step k (suc n) = step (k * 64) ∷ lines step (suc k) n

-- The number of lines between the first byte and the last one.
abbrev pub line_count : (start end : ℕ) → ℕ
line_count start end = suc ((end - 1) / 64) - start / 64

module _ (step : ℕ → CacheStep) where
  each_line-done : (left p end : ℕ) → end ≤ p → each_line (λ a. step a ∷ []) left p end ≡ []
  unfolding each_line
  each_line-done zero p end h = refl
  each_line-done (suc left) p end h = let e : ltb p end ≡ false = ground arith in rw e refl

  each_line-lines :
      (left k n end : ℕ)
      → n ≤ left
      → end + 64 ≤ 2 ^ 64
      → end ≤ (k + n) * 64
      → (k + n) * 64 < end + 64
      → each_line (λ a. step a ∷ []) left (k * 64) end ≡ lines step k n
  unfolding each_line
  each_line-lines left k zero end fuel wrap low high =
      each_line-done left (k * 64) end (omega arith)
  each_line-lines zero k (suc n) end fuel wrap low high = absurd (omega (arith, fuel))
  each_line-lines (suc left) k (suc n) end fuel wrap low high =
      let e : ltb (k * 64) end ≡ true = ground arith in
      let next : (k * 64 + 64) % 2 ^ 64 ≡ suc k * 64 = omega arith in
      rw e (
        rw next (
          ap (λ rest. step (k * 64) ∷ rest)
            (each_line-lines left (suc k) n end (omega arith) wrap (omega arith) (omega arith))))

  dcache_range_lem :
      (o : Options) (start end : ℕ)
      → o.platform_dcache_ops ≡ true
      → start < end
      → end + 64 ≤ 2 ^ 64
      → dcache_range (λ a. step a ∷ []) o start end
        ≡ fence_rw ∷ lines step (start / 64) (line_count start end) ++ fence_rw ∷ []
  unfolding dcache_range
  dcache_range_lem o start end on some wrap =
      let e : leb end start ≡ false = ground arith in
      rw e (
        rw on (
          ap (λ steps. fence_rw ∷ steps ++ fence_rw ∷ [])
            (each_line-lines end (start / 64) (line_count start end) end (omega arith) wrap
              (omega arith) (omega arith))))

-- With the cache operations on, on a range that is not empty and ends a line or more below the
-- end of the address space, flush_dcache_range cleans and inval_dcache_range invalidates the
-- lines from that of the first byte to that of the last one, each of them once, in order, and
-- between two fences.
pub dcache_ranges_lem :
    (o : Options) (start end : ℕ)
    → o.platform_dcache_ops ≡ true
    → start < end
    → end + 64 ≤ 2 ^ 64
    → (flush_dcache_range o start end
        ≡ fence_rw ∷ lines c906_dcache_clean_line (start / 64) (line_count start end)
          ++ fence_rw ∷ [])
      × (inval_dcache_range o start end
          ≡ fence_rw ∷ lines c906_dcache_inval_line (start / 64) (line_count start end)
            ++ fence_rw ∷ [])
unfolding flush_dcache_range inval_dcache_range sg2002_platform_flush_dcache_line
    sg2002_platform_inval_dcache_line
dcache_ranges_lem o start end on some wrap = (
  dcache_range_lem c906_dcache_clean_line o start end on some wrap,
  dcache_range_lem c906_dcache_inval_line o start end on some wrap,
)
