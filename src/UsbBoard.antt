-- ===== src/UsbBoard.antt =====
-- shared/usb_dwc2_board.c over a bus: the resets and the PHY of the USB controller, and its line in
-- the interrupt controller. Fences are left out.
pub mod Bits
use sg2002_kraken.Base.{ℕ, ◌+◌, ◌-◌, ◌*◌, ◌/◌, ◌%◌, ◌<<<◌, clear_bits}
use sg2002_kraken.Mmio.{Bus, store_set}
use sg2002_kraken.Kraken.Regs.{
  soft_rstn0_reg, soft_rstn1_reg, rst_usb_bit, rst_usb_phy_bit, usb_ctrl_sys_base,
  usb_ctrl_sys_size, usb_phy_ctrl_reg, usb_phy_ctrl_drive_vbus, plic_base, plic_enable_base,
  plic_enable_stride, plic_context_base, plic_context_stride, plic_smode_context, usb_dwc2_irq,
}

abbrev pub plic_enable_reg : (context irq : ℕ) → ℕ
plic_enable_reg context irq = plic_enable_base + context * plic_enable_stride + irq / 32 * 4

abbrev pub plic_context_reg : (context offset : ℕ) → ℕ
plic_context_reg context offset = plic_context_base + context * plic_context_stride + offset

module _ (bus : Bus) where
  open bus use {Device, load, store}

  pub sg2002_usb_deassert_resets : Device → Device
  sg2002_usb_deassert_resets d =
      store_set bus soft_rstn1_reg (1 <<< rst_usb_phy_bit)
        (store_set bus soft_rstn0_reg (1 <<< rst_usb_bit) d)

  -- The first word and the last one are read, and dropped.
  pub sg2002_usb_ctrl_sys_sync : Device → Device
  sg2002_usb_ctrl_sys_sync d =
      let (first, d₁) = load usb_ctrl_sys_base d in
      let (last, d₂) = load (usb_ctrl_sys_base + (usb_ctrl_sys_size / 4 - 1) * 4) d₁ in d₂

  pub sg2002_usb_board_init : Device → Device
  unfolding sg2002_usb_deassert_resets sg2002_usb_ctrl_sys_sync
  sg2002_usb_board_init d =
      let (phy_ctrl, d₁) =
        load usb_phy_ctrl_reg (sg2002_usb_ctrl_sys_sync (sg2002_usb_deassert_resets d)) in
      sg2002_usb_ctrl_sys_sync
        (store usb_phy_ctrl_reg (clear_bits phy_ctrl usb_phy_ctrl_drive_vbus) d₁)

  pub sg2002_usb_plic_init : Device → Device
  sg2002_usb_plic_init d = store (plic_context_reg plic_smode_context 0x0) 0 (
      store_set bus (plic_enable_reg plic_smode_context usb_dwc2_irq) (1 <<< (usb_dwc2_irq % 32))
        (store (plic_base + usb_dwc2_irq * 4) 1 d))

  pub sg2002_usb_plic_claim : Device → ℕ × Device
  sg2002_usb_plic_claim d = load (plic_context_reg plic_smode_context 0x4) d

  pub sg2002_usb_plic_complete : (irq : ℕ) → Device → Device
  sg2002_usb_plic_complete irq d = store (plic_context_reg plic_smode_context 0x4) irq d
