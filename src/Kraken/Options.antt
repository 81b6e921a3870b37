-- ===== src/Kraken/Options.antt =====
-- The build options of kraken.h (`-D` switches), and the capabilities that they give
-- (`sg2002_platform_caps` of shared/platform.c).
use sg2002_kraken.Base.{ℕ, Bool, true, false, set_bits, if◌then◌else◌}
use sg2002_kraken.Kraken.PlatCap

-- Whether each KRAKEN_ENABLE_* switch is on, and whether WORKER_STAGING_ADDR is not 0.
pub record Options : Type 0 where
  pub platform_dcache_ops : Bool
  pub usb_dwc2_scaffold : Bool
  pub worker_reset_hook : Bool
  pub nanow_user_led : Bool
  pub worker_staging : Bool

abbrev pub default_options : Options
default_options = record {
  platform_dcache_ops = false;
  usb_dwc2_scaffold = false;
  worker_reset_hook = true;
  nanow_user_led = true;
  worker_staging = true;
}

pub sg2002_platform_caps : Options → ℕ
sg2002_platform_caps o =
    let base =
      set_bits
        (set_bits (set_bits (set_bits PlatCap.riscv_c906 PlatCap.worker_release) PlatCap.fault_log)
          PlatCap.riscv_traps)
        PlatCap.riscv_identity in
    let usb = if o.usb_dwc2_scaffold then set_bits base PlatCap.usb_dwc2_scaffold else base in
    let hook = if o.worker_reset_hook then set_bits usb PlatCap.worker_reset_hook else usb in
    let dcache = if o.platform_dcache_ops then set_bits hook PlatCap.dcache_ops else hook in
    if o.worker_staging then set_bits dcache PlatCap.worker_staging else dcache
