-- ===== src/Platform/Boot8051.antt =====
-- The boot of the 8051, of shared/platform.c: its windows and its reset line.
use sg2002_kraken.Base.{
  ℕ, zero, suc, ◌≡◌, refl, ◌∙◌, Bool, true, Bool-cases, inl, inr, List, [], ◌∷◌, arith, ◌==◌, ◌!=◌,
  ◌&&◌, ◌||◌, if◌then◌else◌, bit, bit-bit_or, bit-bit_and, bit-le, bit-pow_self, bit_and, set_bits,
  clear_bits, not32,
}
use sg2002_kraken.Mmio.{Bus, Access, read, write, recorded}
use sg2002_kraken.Kraken.Regs.{
  rtcsys_rst_ctrl_reg, rtcsys_mcu51_ctrl0_reg, rtcsys_mcu51_ctrl1_reg, rtcsys_wdt_crr,
  rtcsys_rst_ctrl_rtc2ap_bit, rtcsys_ip_pwr_req_reg, wdt_kick_key, rtcsys_ip_pwr_ack_mcu_bit,
}
use sg2002_kraken.Platform.{
  await_power, power_rounds, sg2002_8051_power_on_domain, sg2002_rtcsys_wdt_arm, mailbox_send_8051,
  start_8051, sg2002_boot_8051,
}

-- The reset line of the 8051, bit 1 of the last value that was written to RST_CTRL: 0 holds the core,
-- 1 lets it run.
pub reset_line : List Access → ℕ
reset_line [] = 1
reset_line (read a v ∷ log) = reset_line log
reset_line (write a v ∷ log) = if a == rtcsys_rst_ctrl_reg then bit v 1 else reset_line log

-- Each write of the windows, CTRL0 and CTRL1, falls in a time in which the core is held.
unfoldable pub windows_held : List Access → Bool
windows_held [] = true
windows_held (read a v ∷ log) = windows_held log
windows_held (write a v ∷ log) =
    (if a == rtcsys_mcu51_ctrl0_reg || a == rtcsys_mcu51_ctrl1_reg
      then reset_line log == 0
      else true)
    && windows_held log

hold_bit : (v : ℕ) → bit (clear_bits v 2) 1 ≡ 0
unfolding bit
hold_bit v = omega (arith, bit-bit_and 1 v (not32 2), bit-le 1 v)

run_bit : (v : ℕ) → bit (set_bits v 2) 1 ≡ 1
run_bit v = omega (arith, bit-bit_or 1 v 2, bit-le 1 v, bit-pow_self 1)

module _ (bus : Bus) where
  windows_held-await_power :
      (left : ℕ) (d : bus.Device × List Access)
      → windows_held (await_power (recorded bus) left d).1 ≡ windows_held d.1
  unfolding await_power windows_held
  windows_held-await_power zero d = refl
  windows_held-await_power (suc left) d =
      let v = (bus.load rtcsys_ip_pwr_req_reg (d.0)).0 in
      elim (Bool-cases (bit_and v rtcsys_ip_pwr_ack_mcu_bit != 0)) [
        | inl e ↦ rw e refl
        | inr e ↦ rw e (windows_held-await_power left _)
      ]

  windows_held-power_on :
      (d : bus.Device × List Access)
      → windows_held (sg2002_8051_power_on_domain (recorded bus) d).1 ≡ windows_held d.1
  unfolding sg2002_8051_power_on_domain windows_held
  windows_held-power_on d = windows_held-await_power power_rounds _

held_twice : (x : ℕ) (w : Bool) → x ≡ 0 → w ≡ true → ((x == 0) && ((x == 0) && w)) ≡ true
held_twice x w e f = ground arith

start_8051_lem :
    (bus : Bus) (entry_addr : ℕ) (d : bus.Device × List Access)
    → windows_held (d.1) ≡ true
    → let log = (start_8051 (recorded bus) entry_addr d).1 in
      (windows_held log ≡ true)
      × (reset_line log ≡ 1)
      × ((earlier : List Access) × (log ≡ write rtcsys_wdt_crr wdt_kick_key ∷ earlier))
unfolding start_8051 sg2002_rtcsys_wdt_arm mailbox_send_8051 windows_held reset_line
start_8051_lem bus entry_addr d h =
    let rst_ctrl = set_bits (bus.load rtcsys_rst_ctrl_reg (d.0)).0 rtcsys_rst_ctrl_rtc2ap_bit in
    (
      held_twice (bit (clear_bits rst_ctrl 2) 1) (windows_held (d.1)) (hold_bit rst_ctrl) h,
      run_bit rst_ctrl,
      (_, refl),
    )

-- On any bus, and behind accesses that kept the rule, the boot of the 8051 writes the core's
-- windows only while the core is held in reset, lets it run at the end, and kicks the hardware
-- watchdog as its last access.
pub sg2002_boot_8051_lem :
    (bus : Bus) (entry_addr : ℕ) (d : bus.Device × List Access)
    → windows_held (d.1) ≡ true
    → let log = (sg2002_boot_8051 (recorded bus) entry_addr d).1 in
      (windows_held log ≡ true)
      × (reset_line log ≡ 1)
      × ((earlier : List Access) × (log ≡ write rtcsys_wdt_crr wdt_kick_key ∷ earlier))
unfolding sg2002_boot_8051 windows_held
sg2002_boot_8051_lem bus entry_addr d h =
    start_8051_lem bus entry_addr _ (windows_held-power_on bus d ∙ h)
