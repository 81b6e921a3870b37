-- ===== src/Uart.antt =====
-- shared/uart.c over a bus: the characters one by one, each behind a wait for the transmitter. The
-- wait has no bound in the code; here it takes `fuel` polls at most, and `none` means that it goes on.
pub mod Wire
mod Tests
use sg2002_kraken.Base.{
  ℕ, zero, suc, ◌+◌, ◌*◌, List, [], ◌∷◌, Option, none, some, Bool, true, false, ◌==◌, if◌then◌else◌,
  bit_and, get_or, u32, ◌<<<◌, ◌>>>◌,
}
use sg2002_kraken.Mmio.{Bus}
use sg2002_kraken.Hex.{hex}

abbrev pub uart0_base : ℕ
uart0_base = 0x04140000

abbrev pub uart_thr : ℕ
uart_thr = 0x00

abbrev pub uart_lsr : ℕ
uart_lsr = 0x14

abbrev pub uart_lsr_thre : ℕ
uart_lsr_thre = 1 <<< 5

module _ (bus : Bus) where
  open bus use {Device, load, store}

  pub await_thre : ℕ → Device → Option Device
  await_thre zero d = none
  await_thre (suc left) d =
      let (v, d') = load (uart0_base + uart_lsr) d in
      elim (bit_and v uart_lsr_thre == 0) [ true ↦ await_thre left d' | false ↦ some d' ]

module _ (bus : Bus) (fuel : ℕ) where
  open bus use {Device, store}

  pub uart_putc : ℕ → Device → Option Device
  unfolding await_thre
  uart_putc c d = elim (await_thre bus fuel d) [
    | none ↦ none
    | some d' ↦ some (store (uart0_base + uart_thr) c d')
  ]

  pub uart_puts : List ℕ → Device → Option Device
  unfolding uart_putc
  uart_puts [] d = some d
  uart_puts (c ∷ cs) d = elim (if c == 10 then uart_putc 13 d else some d) [
    | none ↦ none
    | some d₁ ↦ elim (uart_putc c d₁) [ none ↦ none | some d₂ ↦ uart_puts cs d₂ ]
  ]

  -- The loop of `uart_puthex`, from digit `n - 1` down to 0.
  pub puthex_digits : (n v : ℕ) → Device → Option Device
  unfolding uart_putc
  puthex_digits zero v d = some d
  puthex_digits (suc n) v d = elim (uart_putc (get_or hex (bit_and (v >>> (n * 4)) 0xf) 0) d) [
    | none ↦ none
    | some d' ↦ puthex_digits n v d'
  ]

  pub uart_puthex : ℕ → Device → Option Device
  unfolding puthex_digits
  uart_puthex v d = puthex_digits 8 v d

  pub uart_puthex64 : ℕ → Device → Option Device
  unfolding uart_puthex
  uart_puthex64 v d = elim (uart_puthex (u32 (v >>> 32)) d) [
    | none ↦ none
    | some d' ↦ uart_puthex (u32 (bit_and v 0xffffffff)) d'
  ]
