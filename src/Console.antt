-- ===== src/Console.antt =====
-- The console output of shared/usb_serial.c and shared/uart.c: everything that is printed goes to the
-- UART and to the transmit ring of the USB console. `uart_putc` is the character that it sends.
pub mod Write
use Prim.Native.Char.{code}
use Prim.Native.String.{String}
use sg2002_kraken.Base.{ℕ, List, [], ◌∷◌, ◌++◌, ◌==◌, if◌then◌else◌, take}
use sg2002_kraken.Kraken.Structs.{UsbCtrl}
use sg2002_kraken.Hex.{console_hex32_to_buf, uart_puthex}
use sg2002_kraken.UsbSerial.{Cdc, usb_serial_write}

-- The characters of a literal, which has no NUL before its end.
abbrev pub codes : String → List ℕ
codes String.[] = []
codes (String.◌∷◌ c s) = code c ∷ codes s

-- What `uart_puts` sends.
unfoldable pub uart_puts : List ℕ → List ℕ
uart_puts [] = []
uart_puts (c ∷ cs) = if c == 10 then 13 ∷ c ∷ uart_puts cs else c ∷ uart_puts cs

-- What the UART has sent, and the rings of the USB console.
pub record Out : Type 0 where
  pub uart : List ℕ
  pub usb : UsbCtrl

-- A call of `console_puts` or of `console_puthex`.
pub data Piece : Type 0 where
  text : String → Piece
  word : ℕ → Piece

module _ (cdc : Cdc) where
  pub usb_serial_write_cstr : List ℕ → UsbCtrl → cdc.Device → UsbCtrl
  usb_serial_write_cstr s u d = usb_serial_write cdc (take 4096 s) u d

  pub console_puts : List ℕ → cdc.Device → Out → Out
  unfolding uart_puts usb_serial_write_cstr
  console_puts s d out = record {
    uart = out.uart ++ uart_puts s;
    usb = usb_serial_write_cstr s out.usb d;
  }

  pub console_puthex : ℕ → cdc.Device → Out → Out
  console_puthex v d out = record {
    uart = out.uart ++ uart_puthex v;
    usb = usb_serial_write cdc (console_hex32_to_buf v) out.usb d;
  }

  pub put : Piece → cdc.Device → Out → Out
  unfolding console_puts console_puthex
  put (text s) d out = console_puts (codes s) d out
  put (word v) d out = console_puthex v d out

  -- A run of calls.
  pub print : List Piece → cdc.Device → Out → Out
  unfolding put
  print [] d out = out
  print (p ∷ ps) d out = print ps d (put p d out)
