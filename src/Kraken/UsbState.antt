-- ===== src/Kraken/UsbState.antt =====
-- The states of the USB console, `usb_state`. (`enum usb_serial_state` of kraken.h)
use Prim.Native.Nat.{ℕ}

abbrev pub off : ℕ
off = 0

abbrev pub init : ℕ
init = 1

abbrev pub ready : ℕ
ready = 2

abbrev pub active : ℕ
active = 3

abbrev pub error : ℕ
error = 4
