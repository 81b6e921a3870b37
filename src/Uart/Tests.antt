-- ===== src/Uart/Tests.antt =====
-- A UART that is busy for one poll behind each character.
use sg2002_kraken.Hex
use sg2002_kraken.Console
use sg2002_kraken.Console.{codes}
use sg2002_kraken.Base.{refl, Bool, true, false, [], bit, if◌then◌else◌, inl, inr}
use sg2002_kraken.Mmio.{Bus, recorded}
use sg2002_kraken.Uart.{uart_puts, uart_puthex, uart_puthex64}
use sg2002_kraken.Uart.Wire.{DrainsWithin, Sends, uart_calls_lem}

abbrev slow : Bus
slow = record {
  Device = Bool;
  load = λ a busy. (if busy then 0 else 0x60, false);
  store = λ a v busy. true;
}

drains : (d : Bool) → DrainsWithin slow 2 d
unfolding bit
drains true = inr (inl refl)
drains false = inl refl

uart_calls_example :
    Sends slow
      (uart_puts (recorded slow) 2 (codes "a\n") (true, []))
      (true, [])
      (Console.uart_puts (codes "a\n"))
    × Sends slow
        (uart_puthex (recorded slow) 2 0xbeef (true, []))
        (true, [])
        (Hex.uart_puthex 0xbeef)
    × Sends slow
        (uart_puthex64 (recorded slow) 2 0xbeef (true, []))
        (true, [])
        (Hex.uart_puthex64 0xbeef)
uart_calls_example = uart_calls_lem slow 2 drains (codes "a\n") 0xbeef 0xbeef (true, [])
