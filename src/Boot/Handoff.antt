-- ===== src/Boot/Handoff.antt =====
-- bootloader/main.c: what the bootloader hands to the kernel.
use sg2002_kraken.Base.{
  ℕ, ◌≡◌, refl, ◌∙◌, Bool-cases, inl, inr, arith, not, u32, bit, bit_or, bit-bit_or, bit-le,
  bit-pow_self, ◌^◌,
}
use sg2002_kraken.Mmio.{Bus}
use sg2002_kraken.Kraken.Config.{kernel_load_addr, worker_load_addr}
use sg2002_kraken.Kraken.Stage
use sg2002_kraken.Kraken.SysFlag
use sg2002_kraken.Kraken.Options.{Options}
use sg2002_kraken.Kraken.Structs.{SharedCtrl, Shared}
use sg2002_kraken.Image.{sg2002_image_present}
use sg2002_kraken.Persist.Ring.{IsPage}
use sg2002_kraken.UsbSerial.{Cdc, usb_serial_init}
use sg2002_kraken.Ctl.{
  ctl_set_stage, ctl_init_defaults, ctl_note_boot_abi, ctl_fault_log, ctl_trace_log,
  ctl_note_riscv_boot_identity, ctl_set_platform_error, ctl_clear_platform_error,
}
use sg2002_kraken.Kernel.{Machine, on_shared, on_ctl, on_device, say}
use sg2002_kraken.Kernel.Invariant.{if_both, AllEnds, HasLogs}
use sg2002_kraken.Boot.Logs.{
  begin_boot-HasLogs, start_boot_console-HasLogs, greet_boot-HasLogs, hand_off-HasLogs,
  boot_panic-HasLogs,
}
use sg2002_kraken.Boot.{
  kernel_missing_code, note_boot_panic, add_flag, boot_panic, trace_boot, begin_boot,
  start_boot_console, greet_boot, hand_off, jump_args, bootloader_main,
}

-- The fields by which the images know their page and their boot are the same.
record SamePage (c d : SharedCtrl) : Type 0 where
  magic : d.magic ≡ c.magic
  version : d.version ≡ c.version
  boot_count : d.boot_count ≡ c.boot_count
  hartid : d.boot_hartid ≡ c.boot_hartid
  dtb_addr : d.boot_dtb_addr ≡ c.boot_dtb_addr
  active : bit c.system_flags 0 ≡ 1 → bit d.system_flags 0 ≡ 1

SamePage-trans : {c d e : SharedCtrl} → SamePage c d → SamePage d e → SamePage c e
SamePage-trans h g = record {
  magic = g.magic ∙ h.magic;
  version = g.version ∙ h.version;
  boot_count = g.boot_count ∙ h.boot_count;
  hartid = g.hartid ∙ h.hartid;
  dtb_addr = g.dtb_addr ∙ h.dtb_addr;
  active = λ e. g.active (h.active e);
}

flag_kept : (flags mask : ℕ) → bit flags 0 ≡ 1 → bit (bit_or flags mask) 0 ≡ 1
flag_kept flags mask e = omega (arith, bit-bit_or 0 flags mask, bit-le 0 mask)

flag_added : (k flags : ℕ) → bit (bit_or flags (2 ^ k)) k ≡ 1
flag_added k flags = omega (arith, bit-bit_or k flags (2 ^ k), bit-le k flags, bit-pow_self k)

usb_serial_init-SamePage :
    (cdc : Cdc) (ctl : SharedCtrl) (d : cdc.Device) → SamePage ctl ((usb_serial_init cdc ctl d).0)
unfolding usb_serial_init ctl_set_platform_error ctl_clear_platform_error
usb_serial_init-SamePage cdc ctl d = elim (Bool-cases ((cdc.start d).0)) [
  | inl e ↦ rw e (record {
    magic = refl;
    version = refl;
    boot_count = refl;
    hartid = refl;
    dtb_addr = refl;
    active = λ h. h;
  })
  | inr e ↦ rw e (record {
    magic = refl;
    version = refl;
    boot_count = refl;
    hartid = refl;
    dtb_addr = refl;
    active = λ h. flag_kept ctl.system_flags SysFlag.usb_fault h;
  })
]

module _ {bus : Bus} {cdc : Cdc} where
  -- The page that the bootloader has made of what it found.
  pub record IsBooted (o : Options) (found : Shared) (hart dtb : ℕ) (t : Machine bus cdc)
      : Type 0 where
    pub magic : t.shared.ctl.magic ≡ (ctl_init_defaults o found).ctl.magic
    pub version : t.shared.ctl.version ≡ (ctl_init_defaults o found).ctl.version
    pub boot_count : t.shared.ctl.boot_count ≡ (ctl_init_defaults o found).ctl.boot_count
    pub hartid : (jump_args t).0 ≡ u32 hart
    pub dtb_addr : (jump_args t).1 ≡ u32 dtb
    pub active : bit t.shared.ctl.system_flags 0 ≡ 1

  begin_boot-IsBooted :
      (o : Options) (hart dtb : ℕ) (m : Machine bus cdc)
      → IsBooted o (m.shared) hart dtb (begin_boot o hart dtb m)
  unfolding begin_boot trace_boot add_flag say on_shared on_ctl on_device ctl_trace_log
      ctl_set_stage ctl_note_boot_abi ctl_note_riscv_boot_identity jump_args
  begin_boot-IsBooted o hart dtb m = record {
    magic = refl;
    version = refl;
    boot_count = refl;
    hartid = refl;
    dtb_addr = refl;
    active = flag_added 0 _;
  }

  -- What keeps the fields keeps what the bootloader has made.
  IsBooted-SamePage :
      (o : Options) (found : Shared) (hart dtb : ℕ) (m t : Machine bus cdc)
      → SamePage (m.shared.ctl) (t.shared.ctl)
      → IsBooted o found hart dtb m
      → IsBooted o found hart dtb t
  unfolding jump_args
  IsBooted-SamePage o found hart dtb m t same h = record {
    magic = same.magic ∙ h.magic;
    version = same.version ∙ h.version;
    boot_count = same.boot_count ∙ h.boot_count;
    hartid = same.hartid ∙ h.hartid;
    dtb_addr = same.dtb_addr ∙ h.dtb_addr;
    active = same.active h.active;
  }

  start_boot_console-SamePage :
      (o : Options) (m : Machine bus cdc)
      → SamePage (m.shared.ctl) ((start_boot_console o m).shared.ctl)
  unfolding start_boot_console
  start_boot_console-SamePage o m = elim (Bool-cases (o.usb_dwc2_scaffold)) [
    | inl e ↦ rw e (usb_serial_init-SamePage cdc (m.shared.ctl) (m.host))
    | inr e ↦ rw e (record {
      magic = refl;
      version = refl;
      boot_count = refl;
      hartid = refl;
      dtb_addr = refl;
      active = λ h. h;
    })
  ]

  greet_boot-SamePage :
      (hart dtb : ℕ) (m : Machine bus cdc)
      → SamePage (m.shared.ctl) ((greet_boot hart dtb m).shared.ctl)
  unfolding greet_boot say
  greet_boot-SamePage hart dtb m = record {
    magic = refl;
    version = refl;
    boot_count = refl;
    hartid = refl;
    dtb_addr = refl;
    active = λ h. h;
  }

  hand_off-SamePage : (m : Machine bus cdc) → SamePage (m.shared.ctl) ((hand_off m).shared.ctl)
  unfolding hand_off trace_boot add_flag say on_shared on_ctl ctl_trace_log ctl_set_stage
  hand_off-SamePage m = elim (Bool-cases (not (sg2002_image_present m.mem worker_load_addr))) [
    | inl e ↦ rw e (record {
      magic = refl;
      version = refl;
      boot_count = refl;
      hartid = refl;
      dtb_addr = refl;
      active = λ h. flag_kept m.shared.ctl.system_flags SysFlag.worker_image_missing h;
    })
    | inr e ↦ rw e (record {
      magic = refl;
      version = refl;
      boot_count = refl;
      hartid = refl;
      dtb_addr = refl;
      active = λ h. h;
    })
  ]

  hand_off-stage : (m : Machine bus cdc) → (hand_off m).shared.ctl.system_stage ≡ Stage.kernel_entry
  unfolding hand_off trace_boot say on_shared ctl_trace_log ctl_set_stage
  hand_off-stage m = refl

  -- The bootloader has panicked for want of a kernel.
  pub record NoKernel (t : Machine bus cdc) : Type 0 where
    pub stage : t.shared.ctl.system_stage ≡ Stage.panic
    pub reason : t.shared.ctl.reset_reason ≡ kernel_missing_code
    pub missing : bit t.shared.ctl.system_flags 3 ≡ 1

  boot_panic-NoKernel :
      (m : Machine bus cdc)
      → NoKernel (boot_panic kernel_missing_code SysFlag.kernel_image_missing m)
  unfolding boot_panic note_boot_panic say on_shared ctl_set_stage ctl_fault_log
  boot_panic-NoKernel m = record { stage = refl; reason = refl; missing = flag_added 3 _ }

-- On a well-formed log, whatever the control page held, the bootloader either panics for want of
-- a kernel image, at the panic stage with that reason and flag, or it hands over at the stage of
-- the kernel's entry, with the hart and the device tree that it was given, the magic word, the
-- version and the boot count of a fresh page and its own flag set; the logs are well-formed
-- either way.
pub bootloader_main_lem :
    (bus : Bus) (cdc : Cdc) (o : Options) (hart dtb : ℕ) (m : Machine bus cdc)
    → IsPage (m.shared.log)
    → AllEnds
        (λ t. NoKernel t × HasLogs t)
        (λ t.
          IsBooted o (m.shared) hart dtb t
          × (t.shared.ctl.system_stage ≡ Stage.kernel_entry)
          × HasLogs t)
        (bootloader_main o hart dtb m)
unfolding bootloader_main
bootloader_main_lem bus cdc o hart dtb m page =
    let begun = begin_boot o hart dtb m in
    let started = start_boot_console o begun in
    let greeted = greet_boot hart dtb started in
    let logs =
      greet_boot-HasLogs hart dtb started
        (start_boot_console-HasLogs o begun (begin_boot-HasLogs o hart dtb m page)) in
    if_both
      (AllEnds (λ t. NoKernel t × HasLogs t)
        (λ t.
          IsBooted o (m.shared) hart dtb t
          × (t.shared.ctl.system_stage ≡ Stage.kernel_entry)
          × HasLogs t))
      (not (sg2002_image_present greeted.mem kernel_load_addr))
      (boot_panic-NoKernel greeted, boot_panic-HasLogs _ _ greeted logs)
      (
        IsBooted-SamePage o (m.shared) hart dtb begun _
            (SamePage-trans (start_boot_console-SamePage o begun)
              (SamePage-trans (greet_boot-SamePage hart dtb started) (hand_off-SamePage greeted)))
            (begin_boot-IsBooted o hart dtb m),
        hand_off-stage greeted,
        hand_off-HasLogs greeted logs,
      )
