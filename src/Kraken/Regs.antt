-- ===== src/Kraken/Regs.antt =====
-- The register addresses, bits and keys of kraken.h and shared/platform.c.
use Prim.Native.Nat.{ℕ}

abbrev pub gpio_swporta_dr : ℕ
gpio_swporta_dr = 0x3020000

abbrev pub gpio_swporta_ddr : ℕ
gpio_swporta_ddr = 0x3020004

abbrev pub pinmux_gpioa14_reg : ℕ
pinmux_gpioa14_reg = 0x3001038

abbrev pub user_led_pin : ℕ
user_led_pin = 0xe

abbrev pub user_led_pinmux_gpio : ℕ
user_led_pinmux_gpio = 3

abbrev pub rtc_ctrl0_unlock_reg : ℕ
rtc_ctrl0_unlock_reg = 0x5025004

abbrev pub rtc_ctrl0_reg : ℕ
rtc_ctrl0_reg = 0x5025008

abbrev pub rtc_en_wdg_rst_req_reg : ℕ
rtc_en_wdg_rst_req_reg = 0x50250e0

abbrev pub rtcsys_rst_ctrl_reg : ℕ
rtcsys_rst_ctrl_reg = 0x5025018

abbrev pub rtcsys_mcu51_ctrl0_reg : ℕ
rtcsys_mcu51_ctrl0_reg = 0x5025020

abbrev pub rtcsys_mcu51_ctrl1_reg : ℕ
rtcsys_mcu51_ctrl1_reg = 0x5025024

abbrev pub rtcsys_pmu_reg : ℕ
rtcsys_pmu_reg = 0x5025028

abbrev pub rtcsys_pmu2_reg : ℕ
rtcsys_pmu2_reg = 0x5025054

abbrev pub rtcsys_ip_pwr_req_reg : ℕ
rtcsys_ip_pwr_req_reg = 0x5025080

abbrev pub rtcsys_ip_iso_ctrl_reg : ℕ
rtcsys_ip_iso_ctrl_reg = 0x5025084

abbrev pub rtcsys_por_rst_ctrl_reg : ℕ
rtcsys_por_rst_ctrl_reg = 0x50250ac

abbrev pub rtcsys_rst_ctrl_mcu51_bit : ℕ
rtcsys_rst_ctrl_mcu51_bit = 2

abbrev pub rtcsys_rst_ctrl_rtc2ap_bit : ℕ
rtcsys_rst_ctrl_rtc2ap_bit = 0x100

abbrev pub rtcsys_pmu_clk25m_req_bit : ℕ
rtcsys_pmu_clk25m_req_bit = 0x8000

abbrev pub rtcsys_pmu2_wkint_db_en_bit : ℕ
rtcsys_pmu2_wkint_db_en_bit = 1

abbrev pub rtcsys_ip_pwr_req_mcu_bit : ℕ
rtcsys_ip_pwr_req_mcu_bit = 4

abbrev pub rtcsys_ip_pwr_ack_mcu_bit : ℕ
rtcsys_ip_pwr_ack_mcu_bit = 0x40000

abbrev pub rtcsys_ip_iso_ctrl_mcu_bit : ℕ
rtcsys_ip_iso_ctrl_mcu_bit = 2

abbrev pub rtcsys_por_rst_ctrl_rtcsys_reset_en_bit : ℕ
rtcsys_por_rst_ctrl_rtcsys_reset_en_bit = 1

abbrev pub rtcsys_mcu51_rom_addr_size_shift : ℕ
rtcsys_mcu51_rom_addr_size_shift = 0

abbrev pub rtcsys_mcu51_rom_addr_size_mask : ℕ
rtcsys_mcu51_rom_addr_size_mask = 0x1f

abbrev pub rtcsys_mcu51_rom_addr_size_ddr : ℕ
rtcsys_mcu51_rom_addr_size_ddr = 4

abbrev pub rtcsys_mcu51_rom_addr_def_bit : ℕ
rtcsys_mcu51_rom_addr_def_bit = 0x80

abbrev pub rtc_ctrl0_unlock_key : ℕ
rtc_ctrl0_unlock_key = 0xab18

abbrev pub rtc_ctrl0_req_sw_wdg_rst : ℕ
rtc_ctrl0_req_sw_wdg_rst = 0x20

abbrev pub rtc_en_wdg_rst_req_bit : ℕ
rtc_en_wdg_rst_req_bit = 1

abbrev pub ap_mailbox_base : ℕ
ap_mailbox_base = 0x3050000

abbrev pub rtcsys_mbox_base : ℕ
rtcsys_mbox_base = 0x5029000

abbrev pub rtcsys_wdt_cr : ℕ
rtcsys_wdt_cr = 0x502d000

abbrev pub rtcsys_wdt_torr : ℕ
rtcsys_wdt_torr = 0x502d004

abbrev pub rtcsys_wdt_crr : ℕ
rtcsys_wdt_crr = 0x502d00c

abbrev pub wdt_kick_key : ℕ
wdt_kick_key = 0x76

abbrev pub wdt_timeout_top : ℕ
wdt_timeout_top = 0xa

abbrev pub soft_rstn0_reg : ℕ
soft_rstn0_reg = 0x3003000

abbrev pub soft_rstn1_reg : ℕ
soft_rstn1_reg = 0x3003004

abbrev pub rst_usb_bit : ℕ
rst_usb_bit = 0xb

abbrev pub rst_usb_phy_bit : ℕ
rst_usb_phy_bit = 0x1a

abbrev pub usb_ctrl_sys_base : ℕ
usb_ctrl_sys_base = 0x3006000

abbrev pub usb_ctrl_sys_size : ℕ
usb_ctrl_sys_size = 0x58

abbrev pub usb_phy_ctrl_reg : ℕ
usb_phy_ctrl_reg = 0x3000048

abbrev pub usb_phy_ctrl_drive_vbus : ℕ
usb_phy_ctrl_drive_vbus = 2

abbrev pub plic_base : ℕ
plic_base = 0x70000000

abbrev pub plic_enable_base : ℕ
plic_enable_base = 0x70002000

abbrev pub plic_enable_stride : ℕ
plic_enable_stride = 0x80

abbrev pub plic_context_base : ℕ
plic_context_base = 0x70200000

abbrev pub plic_context_stride : ℕ
plic_context_stride = 0x1000

abbrev pub plic_smode_context : ℕ
plic_smode_context = 1

abbrev pub usb_dwc2_irq : ℕ
usb_dwc2_irq = 0x1e
