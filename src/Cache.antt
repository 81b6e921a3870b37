-- ===== src/Cache.antt =====
-- shared/cache.c and shared/c906_cache_ops.c: a call is the list of the fences and cache
-- instructions that it runs.
pub mod Lines
pub mod Structs
pub mod Separate
pub mod Tests
use sg2002_kraken.Base.{
  ℕ, zero, suc, ◌+◌, ◌*◌, ◌/◌, ◌%◌, ◌^◌, List, [], ◌∷◌, ◌++◌, ltb, leb, if◌then◌else◌,
}
use sg2002_kraken.Kraken.Options.{Options}

-- The fences and the C906 instructions.
pub data CacheStep : Type 0 where
  fence_rw : CacheStep
  fence_i : CacheStep
  c906_dcache_clean_line : ℕ → CacheStep
  c906_dcache_inval_line : ℕ → CacheStep
  c906_dcache_clean_inval_all : CacheStep
  c906_icache_inval_all : CacheStep

pub sg2002_platform_flush_dcache_line : ℕ → List CacheStep
sg2002_platform_flush_dcache_line addr = c906_dcache_clean_line addr ∷ []

pub sg2002_platform_inval_dcache_line : ℕ → List CacheStep
sg2002_platform_inval_dcache_line addr = c906_dcache_inval_line addr ∷ []

pub sg2002_platform_flush_all_caches : List CacheStep
sg2002_platform_flush_all_caches =
    c906_dcache_clean_inval_all ∷ c906_icache_inval_all ∷ fence_rw ∷ fence_i ∷ fence_rw ∷ []

-- The loop over the lines from `p` on, of at most `left` rounds; `p` is a 64-bit word.
pub each_line : (ℕ → List CacheStep) → (left p end : ℕ) → List CacheStep
each_line op zero p end = []
each_line op (suc left) p end =
    let rest = each_line op left ((p + 64) % 2 ^ 64) end in if ltb p end then op p ++ rest else []

-- Both functions on a range; `start & ~63` is the start of the line of `start`.
pub dcache_range : (ℕ → List CacheStep) → Options → (start end : ℕ) → List CacheStep
unfolding each_line
dcache_range op o start end =
    if leb end start
    then []
    else fence_rw ∷ (if o.platform_dcache_ops then each_line op end (start / 64 * 64) end else [])
      ++ fence_rw ∷ []

pub flush_dcache_range : Options → (start end : ℕ) → List CacheStep
unfolding dcache_range
flush_dcache_range o start end = dcache_range sg2002_platform_flush_dcache_line o start end

pub inval_dcache_range : Options → (start end : ℕ) → List CacheStep
unfolding dcache_range
inval_dcache_range o start end = dcache_range sg2002_platform_inval_dcache_line o start end

pub flush_all_caches : Options → List CacheStep
flush_all_caches o =
    if o.platform_dcache_ops
    then sg2002_platform_flush_all_caches
    else fence_rw ∷ fence_i ∷ fence_rw ∷ []
