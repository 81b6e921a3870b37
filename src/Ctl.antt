-- ===== src/Ctl.antt =====
-- The control page of shared/shared_state.c and shared/riscv_identity.c. Each operation takes the
-- page and the persistent log, as both change in most of them.
pub mod Tests
pub mod Zero
pub mod Logs
pub mod Trap
pub mod Boot
pub mod Progress
use sg2002_kraken.Base.{
  ℕ, ◌+◌, ◌-◌, ◌^◌, Bool, ◌&&◌, ltb, leb, ◌==◌, ◌!=◌, if◌then◌else◌, bit_and, set_bits, clear_bits,
  u32, ◌>>>◌, set,
}
use sg2002_kraken.Kraken.Config.{
  magic, version, fault_log_size, trace_log_size, kernel_load_addr, worker_load_addr,
}
use sg2002_kraken.Kraken.Options.{Options, sg2002_platform_caps}
use sg2002_kraken.Kraken.PersistKind
use sg2002_kraken.Kraken.Stage
use sg2002_kraken.Kraken.CoreState
use sg2002_kraken.Kraken.Cmd
use sg2002_kraken.Kraken.TraceCode
use sg2002_kraken.Kraken.UsbState
use sg2002_kraken.Kraken.Structs.{SharedCtrl, Shared, Identity}
use sg2002_kraken.Persist.{Event, persist_append, persist_note_previous_boot}
use Zero.{zero_ctl}

-- The test by which every image decides whether the page is initialised.
unfoldable pub ctl_valid : SharedCtrl → Bool
ctl_valid ctl = ctl.magic == magic && ctl.version == version

pub append_event : Event → Shared → Shared
append_event e s = record s { log = persist_append e s.log }

unfoldable pub ctl_set_stage : ℕ → Shared → Shared
unfolding append_event
ctl_set_stage stage s =
    append_event
      (record {
        boot_count = s.ctl.boot_count;
        kind = PersistKind.stage;
        source = 0;
        code = 0;
        arg0 = s.ctl.system_flags;
        arg1 = s.ctl.reset_reason;
        stage = stage;
      })
      (record s { ctl = record (s.ctl) { system_stage = stage } })

-- The boot count of the page that `ctl_init_defaults` fills in: one more than the old, and never 0.
pub next_boot_count : ℕ → ℕ
next_boot_count old = let n = u32 (old + 1) in if n == 0 then 1 else n

pub ctl_init_defaults : Options → Shared → Shared
unfolding ctl_valid next_boot_count append_event
ctl_init_defaults o s =
    let old = if ctl_valid s.ctl then s.ctl.boot_count else 0 in
    let noted = if ctl_valid s.ctl then persist_note_previous_boot s.ctl s.log else s.log in
    let fresh = record zero_ctl {
      magic = magic;
      version = version;
      system_stage = Stage.cold_reset;
      kernel_entry_addr = kernel_load_addr;
      worker_entry_addr = worker_load_addr;
      worker_state = CoreState.offline;
      worker_cmd = Cmd.none;
      usb = record (zero_ctl.usb) {
        state = UsbState.off;
        console_enabled = if o.usb_dwc2_scaffold then 1 else 0;
      };
      platform_caps = sg2002_platform_caps o;
      boot_count = next_boot_count old;
    } in
    append_event
      (record {
        boot_count = fresh.boot_count;
        kind = PersistKind.stage;
        source = 0;
        code = fresh.system_stage;
        arg0 = fresh.system_flags;
        arg1 = fresh.reset_reason;
        stage = fresh.system_stage;
      })
      (record { ctl = fresh; log = noted })

unfoldable pub ctl_next_cmd_seq : SharedCtrl → SharedCtrl
ctl_next_cmd_seq ctl = record ctl { kernel_cmd_seq = u32 (ctl.kernel_cmd_seq + 1) }

unfoldable pub ctl_note_boot_abi : ℕ → ℕ → SharedCtrl → SharedCtrl
ctl_note_boot_abi hartid dtb_addr ctl = record ctl {
  boot_hartid = hartid;
  boot_dtb_addr = u32 dtb_addr;
}

unfoldable pub ctl_fault_log : (tag code arg0 arg1 : ℕ) → Shared → Shared
unfolding append_event
ctl_fault_log tag code arg0 arg1 s =
    let slot = bit_and head (fault_log_size - 1) in
    append_event
      (record {
        boot_count = s.ctl.boot_count;
        kind = PersistKind.fault;
        source = tag;
        code = code;
        arg0 = arg0;
        arg1 = arg1;
        stage = s.ctl.system_stage;
      })
      (record s {
        ctl = record (s.ctl) {
          faults = record {
            entries =
                set entries slot (record { tag = tag; code = code; arg0 = arg0; arg1 = arg1 });
            last_tag = tag;
            last_code = code;
            last_arg0 = arg0;
            last_arg1 = arg1;
            head = bit_and (u32 (slot + 1)) (fault_log_size - 1);
            count = if ltb count fault_log_size then u32 (count + 1) else count;
          };
        };
      })
  where
    open s use {ctl.faults.{head, count, entries}}

unfoldable pub ctl_trace_log : (source code arg0 arg1 : ℕ) → Shared → Shared
unfolding append_event
ctl_trace_log source code arg0 arg1 s =
    let slot = bit_and head (trace_log_size - 1) in
    append_event
      (record {
        boot_count = s.ctl.boot_count;
        kind = PersistKind.trace;
        source = source;
        code = code;
        arg0 = arg0;
        arg1 = arg1;
        stage = s.ctl.system_stage;
      })
      (record s {
        ctl = record (s.ctl) {
          traces = record {
            entries =
                set entries slot
                  (record { source = source; code = code; arg0 = arg0; arg1 = arg1 });
            last_source = source;
            last_code = code;
            head = bit_and (u32 (slot + 1)) (trace_log_size - 1);
            count = if ltb count trace_log_size then u32 (count + 1) else count;
          };
        };
      })
  where
    open s use {ctl.traces.{head, count, entries}}

-- The exception code without the interrupt bit, cut to 32 bits, with the interrupt bit in bit 31.
pub packed_mcause : ℕ → ℕ
packed_mcause mcause =
    let code64 = bit_and mcause (2 ^ 64 - 1 - 2 ^ 63) in
    let narrow = u32 (bit_and code64 0xffffffff) in
    if (mcause >>> 63) != 0 then set_bits narrow 0x80000000 else narrow

unfoldable pub ctl_note_trap : (source_tag mcause mepc mtval mstatus : ℕ) → Shared → Shared
unfolding packed_mcause ctl_trace_log ctl_fault_log
ctl_note_trap source_tag mcause mepc mtval mstatus s =
    let noted = record s {
      ctl = record (s.ctl) {
        trap = record {
          count = u32 (s.ctl.trap.count + 1);
          last_source = source_tag;
          last_cause = packed_mcause mcause;
          last_epc = u32 mepc;
          last_tval = u32 mtval;
          last_status = u32 mstatus;
        };
      };
    } in
    ctl_fault_log source_tag (packed_mcause mcause) (u32 mepc) (u32 mstatus)
      (ctl_trace_log source_tag TraceCode.trap_panic (packed_mcause mcause) (u32 mstatus) noted)

unfoldable pub ctl_set_platform_error : ℕ → SharedCtrl → SharedCtrl
ctl_set_platform_error mask ctl = record ctl { platform_errors = set_bits ctl.platform_errors mask }

unfoldable pub ctl_clear_platform_error : ℕ → SharedCtrl → SharedCtrl
ctl_clear_platform_error mask ctl = record ctl {
  platform_errors = clear_bits ctl.platform_errors mask;
}

-- What the CSR reads of riscv_csrs.S return.
pub record Csrs : Type 0 where
  pub mhartid : ℕ
  pub mvendorid : ℕ
  pub marchid : ℕ
  pub mimpid : ℕ
  pub misa : ℕ

abbrev pub identity_slots : ℕ
identity_slots = 3

unfoldable pub ctl_note_riscv_identity : Csrs → ℕ → SharedCtrl → SharedCtrl
ctl_note_riscv_identity csrs slot ctl = if leb identity_slots slot then ctl else record ctl {
  riscv_identity = set ctl.riscv_identity slot (record {
    hartid = u32 csrs.mhartid;
    mvendorid = u32 csrs.mvendorid;
    marchid = u32 csrs.marchid;
    mimpid = u32 csrs.mimpid;
    misa = u32 csrs.misa;
  });
}

unfoldable pub ctl_note_riscv_boot_identity : (slot hartid : ℕ) → SharedCtrl → SharedCtrl
ctl_note_riscv_boot_identity slot hartid ctl = if leb identity_slots slot then ctl else record ctl {
  riscv_identity =
      set ctl.riscv_identity slot
        (record { hartid = hartid; mvendorid = 0; marchid = 0; mimpid = 0; misa = 0 });
}
