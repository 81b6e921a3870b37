-- ===== src/Lib.antt =====
-- Kraken for the SG2002: a bootloader, a kernel and a worker on the RISC-V cores, and a watchdog on
-- the 8051. The images share one page of DDR, the control page (`shared_ctrl_t`), and a persistent
-- log (`kraken_persist_log_t`) that survives a warm reset. All paths below are under
-- src/project/sg2002_bootable_repo/ of the repository.
--
-- The model is a set of functions on explicit states, one for each function of the C code:
--
-- * Kraken (include/kraken.h): the constants, the enumerations, the build options and the
--   structures. Related fields of `shared_ctrl_t` are grouped in records (`usb`, `faults`, `trap`,
--   `traces`).
-- * Persist (shared/shared_state.c): the persistent log. Persist/Ring has the log as the last 256
--   records of a history, Persist/Boot the summary of the previous boot.
-- * Ctl (shared/shared_state.c, shared/riscv_identity.c): the control page. Its operations take
--   and return both structures (`Shared`), since most of them append to the log. Ctl/Logs has the
--   fault and trace rings, Ctl/Trap the record of a trap, Ctl/Boot the start of a boot,
--   Ctl/Progress the stages. Ctl calls Persist.
-- * Watchdog (watch8051/watchdog.c): one round of the main loop is a step; what the other cores
--   write between two rounds is a function of the round. The theorems are in Watchdog/Rounds.
-- * Worker (worker_rtos/main.c): the main loop, the commands and the demo job, in the same style.
--   Worker/Job is about the job, Worker/Commands about the loop, Worker/Served about a job in it,
--   Worker/Unknown about a command that it does not know, Worker/Entry about the part before it.
--   Worker calls Ctl.
-- * TrapPanic (shared/trap.c): `kraken_trap_panic`, which calls Ctl. TrapPanic/Page is about the
--   page it leaves, TrapPanic/Report has what it prints, and TrapPanic/Reader reads that back.
-- * Memory (shared/memory.c): `sg2002_memcpy` and its kin, over a memory that gives an address its
--   byte. Addresses do not wrap.
-- * Image (shared/image.c): staged images. Image/Candidate and Image/Find are about the search for
--   a footer, Image/Crc about the checksum, Image/Stage about validating and copying.
-- * UsbSerial (shared/usb_serial.c): the console over the two rings of the control page. The
--   device stack is the parameter `Cdc`. UsbSerial/Ring and UsbSerial/Queue have the rings as
--   queues, UsbSerial/Calls what the calls do to them, UsbSerial/Pump the transmit pump,
--   UsbSerial/Store and UsbSerial/Receive the receive pump, UsbSerial/Poll the poll,
--   UsbSerial/Through the way of a text to the device.
-- * Hex (shared/usb_serial.c, shared/uart.c): the hexadecimal printing, with the characters as
--   ASCII codes. Hex/Digits has the digits, Hex/Long the 64-bit words.
-- * Uart (shared/uart.c): the same calls over a bus, with the wait for the transmitter. Uart/Wire
--   compares them with what Hex and Console say that they send.
-- * UsbBoard (shared/usb_dwc2_board.c): the set-up of the USB controller over a bus. UsbBoard/Bits
--   has the bits that change.
-- * UsbDescriptors (shared/usb_descriptors.c): the tables, and the buffer of the string
--   descriptors. UsbDescriptors/Blocks walks the configuration, UsbDescriptors/Text reads the
--   strings.
-- * Release (shared/worker_release.c, shared/worker_reset_sg200x.c): the start of the worker core
--   over a bus. Release/Status has the status as a function of the registers.
-- * Mmio (registers): the accesses to registers over a bus, the parameter `Bus`, and a bus that
--   records them.
-- * Platform (shared/platform.c, shared/mailbox.c): the LED, the boot of the 8051, the hardware
--   watchdog, the reset request and the mailboxes over a bus. Platform/Led counts how often the
--   LED lights up, Platform/Blink is about the LED of a panic, Platform/Boot8051 about the order
--   of the accesses.
-- * Console (shared/usb_serial.c, shared/uart.c): the console calls, as what the UART sends and
--   what is queued for USB. Console/Write takes a run of calls together.
-- * Kernel (kernel/main.c): its `Machine` is the shared structures, memory, the bus, the USB
--   device, the UART's output and the line that is typed; a part of the program returns or ends in
--   the endless loop of a panic (`Run`). Kernel/Report has what the commands print, Kernel/Editor
--   the line editor, Kernel/Commands the commands, Kernel/Restart the boot of the worker and the
--   wait for it, Kernel/Supervisor the loop, as rounds, and Kernel/Main `kernel_main`. Kernel/Ack
--   is about the wait, Kernel/Stale, Kernel/Revive and Kernel/Silent about when the worker is
--   restarted, Kernel/Restarts about the count of the restarts, Kernel/Alarm about Kernel with
--   Watchdog, Kernel/Offer about the release of the worker, Kernel/Booted, Kernel/Handshake and
--   Kernel/Trapped about Kernel with Worker, Kernel/Invariant about the logs.
-- * Boot (bootloader/main.c): the bootloader on the same `Machine`, up to the jump, whose
--   arguments are `jump_args`. Boot/Handoff is about what it hands to the kernel, Boot/Chain about
--   the kernel behind it, Boot/Logs about the logs.
-- * Cache (shared/cache.c, shared/c906_cache_ops.c): a call as the list of the fences and cache
--   instructions that it runs. Cache/Lines has the lines that a range takes, Cache/Structs the
--   calls of shared/shared_state.c on the control page and on the log, and Cache/Separate the
--   lines they take.
-- * Layout (include/kraken.h): the shared structures as C lays them out in memory, and the static
--   assertions. Layout/Apart is about fields of different names, Layout/Xdata about the variables
--   that watch8051/watchdog.c places on the control page.
-- * Base (helpers): on bits, words, lists and windows of a ring.
--
-- Numbers are natural numbers; a `uint32_t` keeps its wrap-around as `u32`, and a `uint64_t` that is
-- an argument has its bound as a hypothesis. Loops are recursive in the number of their rounds. The
-- loops of the pumps of usb_serial.c run on fuel, 512, since a round moves a byte at least and a ring
-- has 511; the loop over cache lines has the end of the range for its fuel, since a round moves 64
-- bytes. The build options are those of kraken.h. The cache helpers change no value, and outside
-- Cache their calls are left out, like delays; the console output of the worker is
-- left out too. Outside Uart the wait for the transmitter is no step. An access of another core falls
-- between two rounds of a loop, never inside one.
--
-- Not modelled: the jump between images but for its arguments, the timer, which only delays, the
-- vendored third_party/tinyusb, the assembly, and the Python and shell tools.
pub mod Base
pub mod Kraken
pub mod Persist
pub mod Ctl
pub mod Watchdog
pub mod Layout
pub mod Memory
pub mod Hex
pub mod Image
pub mod Boot
pub mod Cache
pub mod Console
pub mod Kernel
pub mod Mmio
pub mod Platform
pub mod Release
pub mod TrapPanic
pub mod Uart
pub mod UsbBoard
pub mod UsbDescriptors
pub mod UsbSerial
pub mod Worker
