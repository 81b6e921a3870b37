-- ===== src/Boot/Chain.antt =====
-- bootloader/main.c with kernel/main.c: the kernel on the page that the bootloader has made.
use sg2002_kraken.Base.{
  ℕ, ◌≡◌, ◌≢◌, refl, ◌∙◌, true, ◌==◌, ◌&&◌, if◌then◌else◌, Bool-cases, inl, inr, arith, bit,
  bit-bit_or, bit-bit_and, bit-bit_xor, bit-le, bit-pow_self, bit-pow_ne, ones_bits, not32,
  set_bits, clear_bits, u32,
}
use sg2002_kraken.Mmio.{Bus}
use sg2002_kraken.Kraken.Stage
use sg2002_kraken.Kraken.SysFlag
use sg2002_kraken.Kraken.UsbState
use sg2002_kraken.Kraken.Options.{Options}
use sg2002_kraken.Kraken.Structs.{SharedCtrl, Shared}
use sg2002_kraken.Persist.Ring.{IsPage}
use sg2002_kraken.Ctl.{
  ctl_valid, next_boot_count, ctl_init_defaults, ctl_note_boot_abi, ctl_note_riscv_boot_identity,
  ctl_trace_log, ctl_set_stage, ctl_set_platform_error, ctl_clear_platform_error,
}
use sg2002_kraken.Ctl.Boot.{ctl_init_defaults_lem}
use sg2002_kraken.UsbSerial.{Cdc, usb_serial_init}
use sg2002_kraken.Kernel.{Machine, running, and_then, on_shared, on_ctl, on_device, trace, say}
use sg2002_kraken.Kernel.Main.{
  greet, usable, set_kernel_active, note_entry, start_console, kernel_entry,
}
use sg2002_kraken.Kernel.Invariant.{if_both, AllEnds, and_then-AllEnds, HasLogs}
use sg2002_kraken.Boot.{jump_args, bootloader_main}
use sg2002_kraken.Boot.Handoff.{IsBooted, NoKernel, bootloader_main_lem}

-- The kernel has entered on a page whose boot is number `boots`, and has put its own flag, bit 1, in
-- the place of the bootloader's, bit 0.
pub record IsEntered (boots hart dtb : ℕ) (c : SharedCtrl) : Type 0 where
  pub boot_count : c.boot_count ≡ boots
  pub hartid : c.boot_hartid ≡ hart
  pub dtb_addr : c.boot_dtb_addr ≡ dtb
  pub stage : c.system_stage ≡ Stage.kernel_entry
  pub left : bit c.system_flags 0 ≡ 0
  pub active : bit c.system_flags 1 ≡ 1

-- The boot count behind what was found: 0 counts for a page that is not valid.
abbrev pub boots_after : Shared → ℕ
boots_after s = next_boot_count (if ctl_valid s.ctl then s.ctl.boot_count else 0)

left_bit : (flags : ℕ) → bit (set_bits (clear_bits flags 1) 2) 0 ≡ 0
left_bit flags = omega (
  arith,
  bit-bit_or 0 (clear_bits flags 1) 2,
  bit-bit_and 0 flags (not32 1),
  bit-bit_xor 0 1 0xffffffff,
  ones_bits 0 (omega arith),
  bit-pow_self 0,
  bit-pow_ne 1 0 (omega arith),
  bit-le 0 flags,
)

active_bit : (flags : ℕ) → bit (set_bits flags 2) 1 ≡ 1
active_bit flags = omega (arith, bit-bit_or 1 flags 2, bit-le 1 flags, bit-pow_self 1)

-- The flag of a USB fault is another bit.
fault_apart : (flags k : ℕ) → k ≢ 6 → bit (set_bits flags SysFlag.usb_fault) k ≡ bit flags k
fault_apart flags k ne = omega (arith, bit-bit_or k flags 64, bit-le k flags, bit-pow_ne 6 k ne)

usb_serial_init-IsEntered :
    (cdc : Cdc) (boots hart dtb : ℕ) (ctl : SharedCtrl) (d : cdc.Device)
    → IsEntered boots hart dtb ctl
    → IsEntered boots hart dtb ((usb_serial_init cdc ctl d).0)
unfolding usb_serial_init ctl_set_platform_error ctl_clear_platform_error
usb_serial_init-IsEntered cdc boots hart dtb ctl d h = elim (Bool-cases ((cdc.start d).0)) [
  | inl e ↦ rw e (record {
    boot_count = h.boot_count;
    hartid = h.hartid;
    dtb_addr = h.dtb_addr;
    stage = h.stage;
    left = h.left;
    active = h.active;
  })
  | inr e ↦ rw e (record {
    boot_count = h.boot_count;
    hartid = h.hartid;
    dtb_addr = h.dtb_addr;
    stage = h.stage;
    left = fault_apart ctl.system_flags 0 (omega arith) ∙ h.left;
    active = fault_apart ctl.system_flags 1 (omega arith) ∙ h.active;
  })
]

module _ {bus : Bus} {cdc : Cdc} where
  note_entry-IsEntered :
      (o : Options) (hart dtb : ℕ) (m : Machine bus cdc)
      → ctl_valid (m.shared.ctl) ≡ true
      → IsEntered
          (m.shared.ctl.boot_count)
          (u32 hart)
          (u32 dtb)
          ((note_entry o hart dtb m).shared.ctl)
  unfolding note_entry usable set_kernel_active on_shared on_ctl on_device trace ctl_trace_log
      ctl_set_stage ctl_note_boot_abi ctl_note_riscv_boot_identity
  note_entry-IsEntered o hart dtb m valid = rw valid (record {
    boot_count = refl;
    hartid = refl;
    dtb_addr = refl;
    stage = refl;
    left = left_bit _;
    active = active_bit _;
  })

  start_console-IsEntered :
      (o : Options) (boots hart dtb : ℕ) (m : Machine bus cdc)
      → IsEntered boots hart dtb (m.shared.ctl)
      → IsEntered boots hart dtb ((start_console o m).shared.ctl)
  unfolding start_console
  start_console-IsEntered o boots hart dtb m h =
      if_both (λ (t : Machine bus cdc). IsEntered boots hart dtb (t.shared.ctl))
        (o.usb_dwc2_scaffold && m.shared.ctl.usb.state == UsbState.off)
        (usb_serial_init-IsEntered cdc boots hart dtb (m.shared.ctl) (m.host) h) h

  kernel_entry-IsEntered :
      (o : Options) (hart dtb : ℕ) (m : Machine bus cdc)
      → ctl_valid (m.shared.ctl) ≡ true
      → IsEntered
          (m.shared.ctl.boot_count)
          (u32 hart)
          (u32 dtb)
          ((kernel_entry o hart dtb m).shared.ctl)
  unfolding kernel_entry greet say on_device ctl_valid
  kernel_entry-IsEntered o hart dtb m valid =
      start_console-IsEntered o _ _ _ _ (note_entry-IsEntered o hart dtb (greet o hart dtb m) valid)

valid_as :
    (c d : SharedCtrl)
    → c.magic ≡ d.magic
    → c.version ≡ d.version
    → ctl_valid d ≡ true
    → ctl_valid c ≡ true
unfolding ctl_valid
valid_as c d e f valid = ground (arith, e, f, valid)

-- On a well-formed log, whatever the control page held, the bootloader panics for want of a
-- kernel, or the kernel, jumped to with the arguments that the bootloader passes, works on the
-- bootloader's page and makes no new one: the boot count has been raised once, the hart and the
-- device tree are those that the bootloader was given, the stage is the kernel's entry, and the
-- kernel's flag has taken the place of the bootloader's.
pub boot_chain_lem :
    (bus : Bus) (cdc : Cdc) (o : Options) (hart dtb : ℕ) (m : Machine bus cdc)
    → IsPage (m.shared.log)
    → AllEnds
        (λ t. NoKernel t × HasLogs t)
        (λ (k : Machine bus cdc).
          IsEntered (boots_after (m.shared)) (u32 hart) (u32 dtb) (k.shared.ctl))
        (and_then
          (bootloader_main o hart dtb m)
          λ t. running (kernel_entry o ((jump_args t).0) ((jump_args t).1) t))
unfolding jump_args
boot_chain_lem bus cdc o hart dtb m page =
    let fresh = ctl_init_defaults_lem o (m.shared) page in
    and_then-AllEnds (λ t. NoKernel t × HasLogs t)
      (λ t.
        IsBooted o (m.shared) hart dtb t
        × (t.shared.ctl.system_stage ≡ Stage.kernel_entry)
        × HasLogs t)
      (λ (k : Machine bus cdc).
        IsEntered (boots_after (m.shared)) (u32 hart) (u32 dtb) (k.shared.ctl))
      (bootloader_main o hart dtb m) _ (bootloader_main_lem bus cdc o hart dtb m page)
      (λ t h.
        let entered = kernel_entry-IsEntered o ((jump_args t).0) ((jump_args t).1) t (
          valid_as (t.shared.ctl) ((ctl_init_defaults o m.shared).ctl) h.0.magic h.0.version
            fresh.0) in
        record {
          boot_count = entered.boot_count ∙ h.0.boot_count ∙ fresh.1;
          hartid = entered.hartid ∙ omega (arith, h.0.hartid);
          dtb_addr = entered.dtb_addr ∙ omega (arith, h.0.dtb_addr);
          stage = entered.stage;
          left = entered.left;
          active = entered.active;
        })
