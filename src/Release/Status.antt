-- ===== src/Release/Status.antt =====
-- The status of shared/worker_release.c over registers that store what they can.
use sg2002_kraken.Base.{
  ℕ, ◌^◌, ◌≡◌, arith, ◌==◌, ◌!=◌, ◌&&◌, if◌then◌else◌, bit_and, set_bits, clear_bits, ◌%◌, ◌/◌, not,
  bit_and_mask,
}
use sg2002_kraken.Mmio.{registers}
use sg2002_kraken.Kraken.ReleaseStatus
use sg2002_kraken.Kraken.Options.{Options}
use sg2002_kraken.Release.{
  ctrl_reg, bootaddr_lo, bootaddr_hi, ctrl_en, reset_reg, reset_mask, worker_reset_write_expect,
  sg2002_platform_worker_reset_deassert, sg2002_release_worker_core,
}

-- The status for an entry address, from what the four registers latch.
abbrev pub status_of : Options → (latch : ℕ → ℕ → ℕ) → (entry ctrl reset : ℕ) → ℕ
status_of o latch entry ctrl reset =
    let low = latch reset_reg (clear_bits reset reset_mask) in
    if latch bootaddr_lo (entry % 2 ^ 32) != entry % 2 ^ 32
    then ReleaseStatus.bootaddr_lo_mismatch
    else if latch bootaddr_hi (entry / 2 ^ 32 % 2 ^ 32) != entry / 2 ^ 32 % 2 ^ 32
    then ReleaseStatus.bootaddr_hi_mismatch
    else if bit_and (latch ctrl_reg (set_bits ctrl ctrl_en)) ctrl_en == 0
    then ReleaseStatus.enable_latch_failed
    else if not o.worker_reset_hook
    then ReleaseStatus.ok
    else if bit_and low reset_mask == 0
        && bit_and (latch reset_reg (set_bits low reset_mask)) reset_mask == reset_mask
    then ReleaseStatus.ok
    else ReleaseStatus.reset_hook_failed

-- Over registers that store what a latch function makes of a value, the status of the release is
-- decided by the first register that does not read back what the core needs: the entry's low
-- word, its high word, the enable bit, and, with the reset hook, the reset bit low and then high.
pub sg2002_release_worker_core_lem :
    (o : Options) (latch : ℕ → ℕ → ℕ) (entry : ℕ) (d : ℕ → ℕ)
    → (sg2002_release_worker_core (registers latch) o entry d).0
      ≡ status_of o latch entry (d ctrl_reg) (d reset_reg)
unfolding sg2002_release_worker_core sg2002_platform_worker_reset_deassert worker_reset_write_expect
sg2002_release_worker_core_lem o latch entry d =
    ground (arith, bit_and_mask 32 entry, bit_and_mask 32 (entry / 2 ^ 32))
