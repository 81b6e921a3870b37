-- ===== src/UsbBoard/Bits.antt =====
-- shared/usb_dwc2_board.c: which bits of which registers change.
use sg2002_kraken.Base.{
  ℕ, ◌+◌, ◌*◌, ◌^◌, ◌<◌, ◌≡◌, Bool-cases, inl, inr, arith, ◌==◌, ◌&&◌, ◌||◌, if◌then◌else◌, bit,
  bit-bit_or, bit-bit_and, bit-bit_xor, bit-le, bit-pow_self, bit-pow_ne, set_bits, clear_bits,
  not32, ones_bits,
}
use sg2002_kraken.Mmio.{register_file}
use sg2002_kraken.Kraken.Regs.{
  soft_rstn0_reg, soft_rstn1_reg, usb_phy_ctrl_reg, plic_base, plic_smode_context, usb_dwc2_irq,
}
use sg2002_kraken.UsbBoard.{
  plic_enable_reg, plic_context_reg, sg2002_usb_deassert_resets, sg2002_usb_ctrl_sys_sync,
  sg2002_usb_board_init, sg2002_usb_plic_init,
}

-- `x |= 1 << n`, one bit at a time.
bit-set_bits : (n k x : ℕ) → bit (set_bits x (2 ^ n)) k ≡ (if k == n then 1 else bit x k)
bit-set_bits n k x = elim (Bool-cases (k == n)) [
  | inl e ↦ ground (arith, bit-bit_or k x (2 ^ n), bit-le k x, bit-pow_self n)
  | inr e ↦ ground (arith, bit-bit_or k x (2 ^ n), bit-le k x, bit-pow_ne n k)
]

-- `x &= ~(1 << n)`, one bit of a 32-bit word at a time.
bit-clear_bits :
    (n k x : ℕ) → k < 32 → bit (clear_bits x (2 ^ n)) k ≡ (if k == n then 0 else bit x k)
bit-clear_bits n k x h = ground (
  arith,
  bit-bit_and k x (not32 (2 ^ n)),
  bit-bit_xor k (2 ^ n) 0xffffffff,
  ones_bits k h,
  bit-le k x,
  bit-pow_self n,
  bit-pow_ne n k,
)

-- On registers that keep what is written, the board's set-up sets bit 11 of the first reset
-- register and bit 26 of the second one, clears bit 1 of the PHY's control register, and leaves
-- every other bit of every register's 32 as it was.
sg2002_usb_board_init_lem :
    (d : ℕ → ℕ) (a k : ℕ)
    → k < 32
    → bit (sg2002_usb_board_init register_file d a) k ≡ (
        if (a == soft_rstn0_reg && k == 11) || (a == soft_rstn1_reg && k == 26)
        then 1
        else if a == usb_phy_ctrl_reg && k == 1
        then 0
        else bit (d a) k)
unfolding sg2002_usb_board_init sg2002_usb_deassert_resets sg2002_usb_ctrl_sys_sync
sg2002_usb_board_init_lem d a k h = ground (
  arith,
  bit-set_bits 11 k (d soft_rstn0_reg),
  bit-set_bits 26 k (d soft_rstn1_reg),
  bit-clear_bits 1 k (d usb_phy_ctrl_reg) h,
)

-- On registers that keep what is written, the set-up of the interrupt controller gives the USB
-- controller's source priority 1 and its context threshold 0, enables that source for the context
-- and leaves the enables of the other sources, and every other register, as they were.
pub sg2002_usb_plic_init_lem :
    (d : ℕ → ℕ) (a k : ℕ)
    → bit (sg2002_usb_plic_init register_file d a) k ≡ (
        if a == plic_base + usb_dwc2_irq * 4
        then bit 1 k
        else if a == plic_context_reg plic_smode_context 0
        then bit 0 k
        else if a == plic_enable_reg plic_smode_context usb_dwc2_irq && k == usb_dwc2_irq
        then 1
        else bit (d a) k)
unfolding sg2002_usb_plic_init
sg2002_usb_plic_init_lem d a k =
    ground (arith, bit-set_bits 30 k (d (plic_enable_reg plic_smode_context usb_dwc2_irq)))
