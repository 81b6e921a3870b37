-- ===== src/TrapPanic/Report.antt =====
-- shared/trap.c: what a trap prints on the UART, and what each image says of itself.
use Prim.Native.String.{String}
use sg2002_kraken.Base.{ℕ, ◌-◌, ◌^◌, List, ◌++◌, ◌==◌, ◌!=◌, if◌then◌else◌, bit_and, ◌>>>◌}
use sg2002_kraken.Kraken.FaultSource
use sg2002_kraken.Kraken.Options.{Options}
use sg2002_kraken.Kraken.Structs.{Shared}
use sg2002_kraken.Hex.{uart_puthex64}
use sg2002_kraken.Console.{codes, uart_puts}
use sg2002_kraken.TrapPanic.{kraken_trap_panic}

-- The images that link shared/trap.c.
pub data TrapImage : Type 0 where
  bootloader kernel worker : TrapImage

pub kraken_trap_source_tag : TrapImage → ℕ
kraken_trap_source_tag bootloader = FaultSource.bootloader
kraken_trap_source_tag kernel = FaultSource.kernel
kraken_trap_source_tag worker = FaultSource.worker

abbrev pub kraken_trap_source_name : TrapImage → String
kraken_trap_source_name bootloader = "boot"
kraken_trap_source_name kernel = "kernel"
kraken_trap_source_name worker = "worker"

pub interrupt_name : (code : ℕ) → String
interrupt_name code =
    if code == 1
    then "supervisor software interrupt"
    else if code == 3
    then "machine software interrupt"
    else if code == 5
    then "supervisor timer interrupt"
    else if code == 7
    then "machine timer interrupt"
    else if code == 9
    then "supervisor external interrupt"
    else if code == 11
    then "machine external interrupt"
    else "interrupt"

pub exception_name : (code : ℕ) → String
exception_name code =
    if code == 0
    then "instruction address misaligned"
    else if code == 1
    then "instruction access fault"
    else if code == 2
    then "illegal instruction"
    else if code == 3
    then "breakpoint"
    else if code == 4
    then "load address misaligned"
    else if code == 5
    then "load access fault"
    else if code == 6
    then "store address misaligned"
    else if code == 7
    then "store access fault"
    else if code == 8
    then "environment call from U-mode"
    else if code == 9
    then "environment call from S-mode"
    else if code == 11
    then "environment call from M-mode"
    else if code == 12
    then "instruction page fault"
    else if code == 13
    then "load page fault"
    else if code == 15
    then "store page fault"
    else "exception"

pub trap_cause_name : (mcause : ℕ) → String
unfolding interrupt_name exception_name
trap_cause_name mcause =
    let code = bit_and mcause (2 ^ 63 - 1) in
    if (mcause >>> 63) != 0 then interrupt_name code else exception_name code

-- The line of the registers.
unfoldable pub register_line : (mcause mepc mtval mstatus : ℕ) → List ℕ
register_line mcause mepc mtval mstatus =
    uart_puts (codes "[trap] mcause=0x")
    ++ (uart_puthex64 mcause
        ++ (uart_puts (codes " mepc=0x")
            ++ (uart_puthex64 mepc
                ++ (uart_puts (codes " mtval=0x")
                    ++ (uart_puthex64 mtval
                        ++ (uart_puts (codes " mstatus=0x")
                            ++ (uart_puthex64 mstatus ++ uart_puts (codes "\n"))))))))

-- What `kraken_trap_panic` prints before it touches the page.
unfoldable pub trap_report : TrapImage → (mcause mepc mtval mstatus : ℕ) → List ℕ
unfolding trap_cause_name register_line
trap_report image mcause mepc mtval mstatus =
    (uart_puts (codes "[trap:")
      ++ (uart_puts (codes (kraken_trap_source_name image))
          ++ (uart_puts (codes "] ")
              ++ (uart_puts (codes (trap_cause_name mcause)) ++ uart_puts (codes "\n")))))
    ++ register_line mcause mepc mtval mstatus

-- A trap of an image: what the UART sends and what becomes of the shared structures.
pub trap_of : TrapImage → Options → (mcause mepc mtval mstatus : ℕ) → Shared → List ℕ × Shared
unfolding trap_report
trap_of image o mcause mepc mtval mstatus s = (
  trap_report image mcause mepc mtval mstatus,
  kraken_trap_panic o (kraken_trap_source_tag image) mcause mepc mtval mstatus s,
)
