-- ===== src/Hex.antt =====
-- The hexadecimal printing of shared/usb_serial.c and shared/uart.c. Characters are ASCII codes.
pub mod Digits
pub mod Long
use sg2002_kraken.Base.{
  ℕ, zero, suc, ◌+◌, ◌*◌, ◌^◌, List, [], ◌∷◌, ◌++◌, bit_and, get_or, u32, ◌>>>◌,
}

-- "0123456789abcdef"
abbrev pub hex : List ℕ
hex = 48 ∷ 49 ∷ 50 ∷ 51 ∷ 52 ∷ 53 ∷ 54 ∷ 55 ∷ 56 ∷ 57 ∷ 97 ∷ 98 ∷ 99 ∷ 100 ∷ 101 ∷ 102 ∷ []

-- The loop of `console_hex32_to_buf`, which fills the buffer from its end; `out` is what it has
-- filled, and `left` the places to go.
pub hex_from : (left v : ℕ) → (out : List ℕ) → List ℕ
hex_from zero v out = out
hex_from (suc left) v out = hex_from left (v >>> 4) (get_or hex (bit_and v 0xf) 0 ∷ out)

pub console_hex32_to_buf : ℕ → List ℕ
unfolding hex_from
console_hex32_to_buf v = hex_from 8 v []

-- The loop of `uart_puthex`, from digit `n - 1` down to 0: the characters it writes.
unfoldable pub puthex_from : (n v : ℕ) → List ℕ
puthex_from zero v = []
puthex_from (suc n) v = get_or hex (bit_and (v >>> (n * 4)) 0xf) 0 ∷ puthex_from n v

unfoldable pub uart_puthex : ℕ → List ℕ
unfolding puthex_from
uart_puthex v = puthex_from 8 v

pub console_puthex64 : ℕ → List ℕ
unfolding console_hex32_to_buf
console_puthex64 v =
    console_hex32_to_buf (u32 (v >>> 32)) ++ console_hex32_to_buf (u32 (bit_and v 0xffffffff))

unfoldable pub uart_puthex64 : ℕ → List ℕ
unfolding uart_puthex
uart_puthex64 v = uart_puthex (u32 (v >>> 32)) ++ uart_puthex (u32 (bit_and v 0xffffffff))
