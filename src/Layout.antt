-- ===== src/Layout.antt =====
-- The structures of include/kraken.h as C lays them out, and its assertions about them.
pub mod Apart
pub mod Xdata
mod Tests
use Prim.Native.String.{String}
use sg2002_kraken.Base.{
  ℕ, ◌+◌, ◌-◌, ◌*◌, ◌/◌, ◌%◌, List, [], ◌∷◌, ◌++◌, Option, none, some, Bool, true, false, ◌==◌,
  ◌&&◌, leb, if◌then◌else◌, bit_and, eq_text,
}
use sg2002_kraken.Kraken.Config.{
  kernel_load_addr, worker_load_addr, shared_ctrl_addr, fw8051_ddr_addr, fault_log_size,
  trace_log_size, persist_log_capacity, usb_serial_ring_size,
}
use sg2002_kraken.Console.{codes}
use sg2002_kraken.Ctl.{identity_slots}

abbrev pub bootloader_load_addr : ℕ
bootloader_load_addr = 0x80200000

abbrev pub shared_reserved_bytes : ℕ
shared_reserved_bytes = 0x10000

abbrev pub persist_log_addr : ℕ
persist_log_addr = shared_ctrl_addr + shared_reserved_bytes

-- A field of a structure, with its size and its alignment in bytes.
pub record Field : Type 0 where
  pub name : String
  pub size : ℕ
  pub align : ℕ

-- A `uint32_t`.
abbrev pub word : String → Field
word name = record { name = name; size = 4; align = 4 }

abbrev pub words : List String → List Field
words [] = []
words (name ∷ names) = word name ∷ words names

-- A field begins at the next multiple of its alignment.
abbrev pub place : ℕ → Field → ℕ
place at f = (at + (f.align - 1)) / f.align * f.align

-- Where a field of a name begins and what it is, among fields that are laid out from `at` on.
pub field_at : String → List Field → (at : ℕ) → Option (ℕ × Field)
field_at name [] at = none
field_at name (f ∷ fs) at =
    let rest = field_at name fs (place at f + f.size) in
    if eq_text (codes name) (codes f.name) then some (place at f, f) else rest

-- `offsetof`, of a field that is there.
unfoldable pub offset_of : String → List Field → ℕ
unfolding field_at
offset_of name fields = elim (field_at name fields 0) [ none ↦ 0 | some (at, f) ↦ at ]

pub end_of : List Field → (at : ℕ) → ℕ
end_of [] at = at
end_of (f ∷ fs) at = end_of fs (place at f + f.size)

-- `sizeof`: the structures here hold words, so they are as long as a multiple of 4.
unfoldable pub size_of : List Field → ℕ
unfolding end_of
size_of fields = (end_of fields 0 + 3) / 4 * 4

abbrev pub fault_record_fields : List Field
fault_record_fields = words ("tag" ∷ "code" ∷ "arg0" ∷ "arg1" ∷ [])

abbrev pub trace_record_fields : List Field
trace_record_fields = words ("source" ∷ "code" ∷ "arg0" ∷ "arg1" ∷ [])

abbrev pub persist_record_fields : List Field
persist_record_fields =
    words ("seq" ∷ "boot_count" ∷ "kind" ∷ "source" ∷ "code" ∷ "arg0" ∷ "arg1" ∷ "stage" ∷ [])

abbrev pub identity_fields : List Field
identity_fields = words ("hartid" ∷ "mvendorid" ∷ "marchid" ∷ "mimpid" ∷ "misa" ∷ [])

-- An array of structures of words.
pub array : String → (count : ℕ) → List Field → Field
unfolding size_of
array name count fields = record { name = name; size = count * size_of fields; align = 4 }

abbrev pub bytes : String → (count : ℕ) → Field
bytes name count = record { name = name; size = count; align = 1 }

unfoldable pub shared_ctrl_fields : List Field
unfolding array
shared_ctrl_fields =
    words (
      "magic" ∷ "version" ∷ "system_stage" ∷ "system_flags" ∷ "reset_reason" ∷ "boot_count"
      ∷ "kernel_entry_addr" ∷ "worker_entry_addr" ∷ "kernel_heartbeat" ∷ "worker_heartbeat"
      ∷ "worker_state" ∷ "worker_restart_count" ∷ "kernel_pet_seq" ∷ "watchdog_last_kernel_seq"
      ∷ "watchdog_last_worker_seq" ∷ "watchdog_pet_count" ∷ "worker_cmd" ∷ "worker_arg0"
      ∷ "worker_arg1" ∷ "worker_result" ∷ "kernel_cmd_seq" ∷ "worker_cmd_ack" ∷ "worker_boot_ack"
      ∷ "usb_state" ∷ "usb_flags" ∷ "usb_rx_head" ∷ "usb_rx_tail" ∷ "usb_tx_head" ∷ "usb_tx_tail"
      ∷ "usb_last_error" ∷ "usb_console_enabled" ∷ "platform_caps" ∷ "platform_errors"
      ∷ "fault_log_head" ∷ "fault_log_count" ∷ "fault_last_tag" ∷ "fault_last_code"
      ∷ "fault_last_arg0" ∷ "fault_last_arg1" ∷ "trap_count" ∷ "trap_last_source"
      ∷ "trap_last_cause" ∷ "trap_last_epc" ∷ "trap_last_tval" ∷ "trap_last_status" ∷ "boot_hartid"
      ∷ "boot_dtb_addr" ∷ [])
    ++ (array "riscv_identity" identity_slots identity_fields
          ∷ array "fault_log" fault_log_size fault_record_fields
          ∷ bytes "usb_rx_ring" usb_serial_ring_size
          ∷ bytes "usb_tx_ring" usb_serial_ring_size
          ∷ words
              ("trace_log_head" ∷ "trace_log_count" ∷ "trace_last_source" ∷ "trace_last_code" ∷ [])
        ++ (array "trace_log" trace_log_size trace_record_fields ∷ []))

unfoldable pub persist_log_fields : List Field
unfolding array
persist_log_fields =
    words (
      "magic" ∷ "version" ∷ "write_head" ∷ "record_count" ∷ "next_seq" ∷ "last_boot_count"
      ∷ "last_reset_reason" ∷ "last_stage" ∷ "last_system_flags" ∷ "last_trace_source"
      ∷ "last_trace_code" ∷ "last_fault_tag" ∷ "last_fault_code" ∷ [])
    ++ (array "records" persist_log_capacity persist_record_fields ∷ [])

-- `offsetof(shared_ctrl_t, name) == offset`
pub offset_is : String → ℕ → Bool
unfolding field_at shared_ctrl_fields
offset_is name offset = elim (field_at name shared_ctrl_fields 0) [
  | none ↦ false
  | some (at, f) ↦ at == offset
]

-- The conditions of the `_Static_assert`s.
pub static_asserts : Bool
unfolding offset_is size_of shared_ctrl_fields persist_log_fields
static_asserts =
    offset_is "system_stage" 0x08
    && (offset_is "system_flags" 0x0c
        && (offset_is "reset_reason" 0x10
            && (offset_is "kernel_heartbeat" 0x20
                && (offset_is "worker_heartbeat" 0x24
                    && (offset_is "worker_state" 0x28
                        && (offset_is "kernel_pet_seq" 0x30
                            && (offset_is "watchdog_last_kernel_seq" 0x34
                                && (offset_is "watchdog_last_worker_seq" 0x38
                                    && (offset_is "watchdog_pet_count" 0x3c
                                        && (leb (size_of shared_ctrl_fields) shared_reserved_bytes
                                            && (bit_and persist_log_capacity
                                                    (persist_log_capacity - 1)
                                                  == 0
                                                && (bit_and bootloader_load_addr 0x0fff == 0
                                                    && (bit_and kernel_load_addr 0x0fff == 0
                                                        && (bit_and worker_load_addr 0x0fff == 0
                                                            && (bit_and shared_ctrl_addr 0x07ff == 0
                                                            && (bit_and fw8051_ddr_addr 0x07ff == 0
                                                            && (leb
                                                            (shared_ctrl_addr
                                                            + size_of shared_ctrl_fields)
                                                            persist_log_addr
                                                            && leb
                                                            (persist_log_addr
                                                            + size_of persist_log_fields)
                                                            worker_load_addr)))))))))))))))))
