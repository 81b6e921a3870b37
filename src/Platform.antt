-- ===== src/Platform.antt =====
-- shared/platform.c and shared/mailbox.c over a bus: the LED, the boot of the 8051, the reset request
-- and the mailboxes. Fences and delays are left out.
pub mod Led
pub mod Blink
pub mod Boot8051
mod Tests
use sg2002_kraken.Base.{
  ℕ, zero, suc, ◌+◌, ◌*◌, Bool, true, false, ◌==◌, ◌!=◌, ◌||◌, ◌&&◌, not, if◌then◌else◌, bit_and,
  bit_xor, set_bits, clear_bits, u32, ◌<<<◌, not32,
}
use sg2002_kraken.Mmio.{Bus, store_set, store_clear}
use sg2002_kraken.Kraken.Regs.{
  gpio_swporta_dr, gpio_swporta_ddr, pinmux_gpioa14_reg, user_led_pin, user_led_pinmux_gpio,
  rtc_ctrl0_unlock_reg, rtc_ctrl0_reg, rtc_en_wdg_rst_req_reg, rtcsys_rst_ctrl_reg,
  rtcsys_mcu51_ctrl0_reg, rtcsys_mcu51_ctrl1_reg, rtcsys_pmu_reg, rtcsys_pmu2_reg,
  rtcsys_ip_pwr_req_reg, rtcsys_ip_iso_ctrl_reg, rtcsys_por_rst_ctrl_reg, rtcsys_rst_ctrl_mcu51_bit,
  rtcsys_rst_ctrl_rtc2ap_bit, rtcsys_pmu_clk25m_req_bit, rtcsys_pmu2_wkint_db_en_bit,
  rtcsys_ip_pwr_req_mcu_bit, rtcsys_ip_pwr_ack_mcu_bit, rtcsys_ip_iso_ctrl_mcu_bit,
  rtcsys_por_rst_ctrl_rtcsys_reset_en_bit, rtcsys_mcu51_rom_addr_size_shift,
  rtcsys_mcu51_rom_addr_size_mask, rtcsys_mcu51_rom_addr_size_ddr, rtcsys_mcu51_rom_addr_def_bit,
  rtc_ctrl0_unlock_key, rtc_ctrl0_req_sw_wdg_rst, rtc_en_wdg_rst_req_bit, ap_mailbox_base,
  rtcsys_mbox_base, rtcsys_wdt_cr, rtcsys_wdt_torr, rtcsys_wdt_crr, wdt_kick_key, wdt_timeout_top,
}
use sg2002_kraken.Kraken.Cmd
use sg2002_kraken.Kraken.Config.{shared_ctrl_addr, persist_magic, persist_version}
use sg2002_kraken.Kraken.Options.{Options}
use sg2002_kraken.Kraken.Structs.{PersistLog}
use sg2002_kraken.Persist.{persist_valid}

abbrev pub user_led_mask : ℕ
user_led_mask = 1 <<< user_led_pin

-- `addr & ~0x7ffu`, cut to 32 bits: the complement is that of a 32-bit word.
pub sg2002_8051_window_base : ℕ → ℕ
sg2002_8051_window_base addr = u32 (bit_and addr (not32 0x7ff))

-- The rounds of the wait for the power acknowledgement.
abbrev pub power_rounds : ℕ
power_rounds = 100000

-- What the LED shows of the previous boot.
abbrev pub blink_source : PersistLog → ℕ
blink_source log = if log.last_fault_tag != 0 then log.last_fault_tag else log.last_trace_source

abbrev pub blink_detail : PersistLog → ℕ
blink_detail log = if log.last_fault_code != 0 then log.last_fault_code else log.last_trace_code

module _ (bus : Bus) where
  open bus use {Device, load, store}

  pub sg2002_user_led_init : Options → Device → Device
  sg2002_user_led_init o d =
      if o.nanow_user_led
      then store_set bus gpio_swporta_ddr user_led_mask
          (store pinmux_gpioa14_reg user_led_pinmux_gpio d)
      else d

  pub sg2002_user_led_set : Options → Bool → Device → Device
  unfolding sg2002_user_led_init
  sg2002_user_led_set o on d =
      let (dr, d') = load gpio_swporta_dr (sg2002_user_led_init o d) in
      if o.nanow_user_led
      then store gpio_swporta_dr
          (if on then set_bits dr user_led_mask else clear_bits dr user_led_mask) d'
      else d

  pub sg2002_user_led_toggle : Options → Device → Device
  unfolding sg2002_user_led_init
  sg2002_user_led_toggle o d =
      let (dr, d') = load gpio_swporta_dr (sg2002_user_led_init o d) in
      if o.nanow_user_led then store gpio_swporta_dr (bit_xor dr user_led_mask) d' else d

  -- The loop of both blinking functions.
  pub pulse : Options → ℕ → Device → Device
  pulse o zero d = d
  pulse o (suc n) d = pulse o n (sg2002_user_led_set o false (sg2002_user_led_set o true d))

  pub sg2002_user_led_blink : Options → ℕ → Device → Device
  unfolding pulse
  sg2002_user_led_blink o pulses d =
      if o.nanow_user_led then pulse o pulses (sg2002_user_led_set o false d) else d

  pub user_led_pulse_group : Options → ℕ → Device → Device
  unfolding pulse
  user_led_pulse_group o pulses d =
      if o.nanow_user_led then pulse o (if pulses == 0 then 1 else pulses) d else d

  pub sg2002_user_led_show_persist_summary : Options → PersistLog → Device → Device
  unfolding user_led_pulse_group
  sg2002_user_led_show_persist_summary o log d =
      if not o.nanow_user_led || not (persist_valid log) || log.last_boot_count == 0
      then d
      else user_led_pulse_group o (bit_and (blink_detail log) 0x0f + 1) (
          user_led_pulse_group o (bit_and (blink_source log) 0x0f + 1)
            (user_led_pulse_group o (bit_and log.last_stage 0x0f + 1) (user_led_pulse_group o 3 d)))

  pub rtc_ctrl0_unlock : Device → Device
  rtc_ctrl0_unlock d = store rtc_ctrl0_unlock_reg rtc_ctrl0_unlock_key d

  -- The wait for the acknowledgement, of at most `left` rounds.
  pub await_power : ℕ → Device → Device
  await_power zero d = d
  await_power (suc left) d =
      let (v, d') = load rtcsys_ip_pwr_req_reg d in
      let rest = await_power left d' in
      if bit_and v rtcsys_ip_pwr_ack_mcu_bit != 0 then d' else rest

  pub sg2002_8051_power_on_domain : Device → Device
  unfolding await_power
  sg2002_8051_power_on_domain d =
      let (ip_pwr_req, d₁) = load rtcsys_ip_pwr_req_reg d in
      let (iso_ctrl, d₂) = load rtcsys_ip_iso_ctrl_reg d₁ in
      let d₃ = store rtcsys_ip_pwr_req_reg (set_bits ip_pwr_req rtcsys_ip_pwr_req_mcu_bit) d₂ in
      store rtcsys_ip_iso_ctrl_reg (clear_bits iso_ctrl rtcsys_ip_iso_ctrl_mcu_bit)
        (await_power power_rounds d₃)

  pub sg2002_rtcsys_wdt_arm : Device → Device
  sg2002_rtcsys_wdt_arm d = store rtcsys_wdt_crr wdt_kick_key (
      store rtcsys_wdt_cr 1 (
        store rtcsys_wdt_torr (set_bits (wdt_timeout_top <<< 4) wdt_timeout_top)
          (store rtcsys_wdt_crr wdt_kick_key d)))

  pub mailbox_send_worker : (cmd arg : ℕ) → Device → Device
  mailbox_send_worker cmd arg d =
      store (ap_mailbox_base + 0x24) arg (store (ap_mailbox_base + 0x20) cmd d)

  pub mailbox_send_8051 : (cmd arg : ℕ) → Device → Device
  mailbox_send_8051 cmd arg d =
      store (rtcsys_mbox_base + 0x24) arg (store (rtcsys_mbox_base + 0x20) cmd d)

  -- From the reset of the 8051 on.
  pub start_8051 : ℕ → Device → Device
  unfolding sg2002_rtcsys_wdt_arm mailbox_send_8051 sg2002_8051_window_base
  start_8051 entry_addr d₁ =
      let (loaded, d₂) = load rtcsys_rst_ctrl_reg d₁ in
      let rst_ctrl = set_bits loaded rtcsys_rst_ctrl_rtc2ap_bit in
      let d₃ = store rtcsys_rst_ctrl_reg (clear_bits rst_ctrl rtcsys_rst_ctrl_mcu51_bit) d₂ in
      let ctrl0 =
        set_bits
          (set_bits (sg2002_8051_window_base entry_addr) (
            bit_and rtcsys_mcu51_rom_addr_size_ddr rtcsys_mcu51_rom_addr_size_mask
            <<< rtcsys_mcu51_rom_addr_size_shift))
          rtcsys_mcu51_rom_addr_def_bit in
      let ctrl1 = sg2002_8051_window_base shared_ctrl_addr in
      let d₄ = store rtcsys_mcu51_ctrl1_reg ctrl1 (store rtcsys_mcu51_ctrl0_reg ctrl0 d₃) in
      let d₅ = store rtcsys_rst_ctrl_reg (set_bits rst_ctrl rtcsys_rst_ctrl_mcu51_bit) d₄ in
      sg2002_rtcsys_wdt_arm (mailbox_send_8051 Cmd.boot (u32 entry_addr) d₅)

  pub sg2002_boot_8051 : ℕ → Device → Device
  unfolding sg2002_8051_power_on_domain start_8051
  sg2002_boot_8051 entry_addr d = start_8051 entry_addr (
      store_set bus rtcsys_pmu2_reg rtcsys_pmu2_wkint_db_en_bit
        (store_set bus rtcsys_pmu_reg rtcsys_pmu_clk25m_req_bit (sg2002_8051_power_on_domain d)))

  -- Up to its endless loop.
  pub sg2002_request_watchdog_reset : Device → Device
  unfolding rtc_ctrl0_unlock
  sg2002_request_watchdog_reset d = store rtc_ctrl0_reg rtc_ctrl0_req_sw_wdg_rst (
      rtc_ctrl0_unlock (
        store_set bus rtc_en_wdg_rst_req_reg rtc_en_wdg_rst_req_bit
          (store_set bus rtcsys_por_rst_ctrl_reg rtcsys_por_rst_ctrl_rtcsys_reset_en_bit d)))

  -- `n` rounds of the endless loop of `sg2002_user_led_panic_loop`.
  pub panic_rounds : Options → ℕ → Device → Device
  unfolding sg2002_user_led_toggle
  panic_rounds o zero d = d
  panic_rounds o (suc n) d =
      panic_rounds o n (if o.nanow_user_led then sg2002_user_led_toggle o d else d)

  -- Up to round `n` of its loop.
  pub sg2002_user_led_panic_loop : Options → ℕ → Device → Device
  unfolding sg2002_user_led_set panic_rounds
  sg2002_user_led_panic_loop o n d =
      panic_rounds o n (if o.nanow_user_led then sg2002_user_led_set o false d else d)
