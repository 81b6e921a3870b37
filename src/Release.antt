-- ===== src/Release.antt =====
-- shared/worker_release.c and shared/worker_reset_sg200x.c: the registers that start the worker
-- core. The registers are hardware; a bus with a load and a store is the parameter of the functions.
-- Fences and delays are left out.
mod Tests
pub mod Status
use sg2002_kraken.Base.{
  ℕ, ◌+◌, ◌*◌, ◌^◌, Bool, true, false, ◌==◌, ◌!=◌, if◌then◌else◌, bit_and, set_bits, clear_bits,
  u32, ◌>>>◌, ◌<<<◌,
}
use sg2002_kraken.Mmio.{Bus}
use sg2002_kraken.Kraken.ReleaseStatus
use sg2002_kraken.Kraken.Options.{Options}

abbrev pub ctrl_reg : ℕ
ctrl_reg = 0x03000004

abbrev pub bootaddr_lo : ℕ
bootaddr_lo = 0x03000020

abbrev pub bootaddr_hi : ℕ
bootaddr_hi = 0x03000024

abbrev pub ctrl_en : ℕ
ctrl_en = 1 <<< 13

abbrev pub reset_reg : ℕ
reset_reg = 0x03003024

abbrev pub reset_mask : ℕ
reset_mask = 1 <<< 6

module _ (bus : Bus) where
  open bus use {Device, load, store}

  -- Whether the value that was written reads back, as far as the mask goes.
  pub worker_reset_write_expect : (value expect_set : ℕ) → Device → Bool × Device
  worker_reset_write_expect value expect_set d =
      let (v, d') = load reset_reg (store reset_reg value d) in
      (bit_and v reset_mask == expect_set, d')

  -- True where the C function returns 0.
  pub sg2002_platform_worker_reset_deassert : Device → Bool × Device
  sg2002_platform_worker_reset_deassert d =
      let (reg, d₁) = load reset_reg d in
      let (low, d₂) = worker_reset_write_expect (clear_bits reg reset_mask) 0 d₁ in
      let (reg', d₃) = load reset_reg d₂ in
      let up = worker_reset_write_expect (set_bits reg' reset_mask) reset_mask d₃ in
      if low then up else (false, d₂)

  pub sg2002_release_worker_core : Options → ℕ → Device → ℕ × Device
  sg2002_release_worker_core o entry_addr d =
      let expected_lo = u32 (bit_and entry_addr 0xffffffff) in
      let expected_hi = u32 (bit_and (entry_addr >>> 32) 0xffffffff) in
      let d₁ = store bootaddr_hi expected_hi (store bootaddr_lo expected_lo d) in
      let (lo, d₂) = load bootaddr_lo d₁ in
      let (hi, d₃) = load bootaddr_hi d₂ in
      let (ctrl, d₄) = load ctrl_reg d₃ in
      let (latched, d₅) = load ctrl_reg (store ctrl_reg (set_bits ctrl ctrl_en) d₄) in
      let (deasserted, d₆) = sg2002_platform_worker_reset_deassert d₅ in
      if lo != expected_lo
      then (ReleaseStatus.bootaddr_lo_mismatch, d₂)
      else if hi != expected_hi
      then (ReleaseStatus.bootaddr_hi_mismatch, d₃)
      else if bit_and latched ctrl_en == 0
      then (ReleaseStatus.enable_latch_failed, d₅)
      else if o.worker_reset_hook
      then if deasserted then (ReleaseStatus.ok, d₆) else (ReleaseStatus.reset_hook_failed, d₆)
      else (ReleaseStatus.ok, d₅)
