-- ===== src/Console/Write.antt =====
-- A run of console calls xs one write to the USB ring and one to the UART.
use sg2002_kraken.Base.{subst, ℕ, ◌≡◌, sym, ap, ◌∙◌, List, [], ◌∷◌, ◌++◌, take}
use mathlib.Core.List.{append_assoc, append-nil}
use sg2002_kraken.Hex.{console_hex32_to_buf, uart_puthex}
use sg2002_kraken.UsbSerial.{Cdc, usb_serial_write}
use sg2002_kraken.UsbSerial.Write.{
  usb_serial_write-append, usb_serial_write-nil, accepted, usb_serial_write_lem,
}
use sg2002_kraken.UsbSerial.Queue.{IsUsb, tx_queue, rx_queue}
use sg2002_kraken.Console.{codes, uart_puts, Out, Piece, text, word, put, print}

-- What a run sends to the UART, and what it offers to the USB ring.
pub uart_text : List Piece → List ℕ
uart_text [] = []
uart_text (text s ∷ ps) = uart_puts (codes s) ++ uart_text ps
uart_text (word v ∷ ps) = uart_puthex v ++ uart_text ps

pub usb_text : List Piece → List ℕ
usb_text [] = []
usb_text (text s ∷ ps) = take 4096 (codes s) ++ usb_text ps
usb_text (word v ∷ ps) = console_hex32_to_buf v ++ usb_text ps

module _ (cdc : Cdc) (d : cdc.Device) where
  put-uart : (p : Piece) (out : Out) → (put cdc p d out).uart ≡ out.uart ++ uart_text (p ∷ [])
  unfolding put uart_text
  put-uart (text s) out = ap (λ l. out.uart ++ l) (sym (append-nil _))
  put-uart (word v) out = ap (λ l. out.uart ++ l) (sym (append-nil _))

  put-usb :
      (p : Piece) (out : Out)
      → (put cdc p d out).usb ≡ usb_serial_write cdc (usb_text (p ∷ [])) out.usb d
  unfolding put usb_text
  put-usb (text s) out = ap (λ l. usb_serial_write cdc l out.usb d) (sym (append-nil _))
  put-usb (word v) out = ap (λ l. usb_serial_write cdc l out.usb d) (sym (append-nil _))

  uart_text-cons :
      (p : Piece) (ps : List Piece) → uart_text (p ∷ ps) ≡ uart_text (p ∷ []) ++ uart_text ps
  unfolding uart_text
  uart_text-cons (text s) ps = ap (λ l. l ++ uart_text ps) (sym (append-nil _))
  uart_text-cons (word v) ps = ap (λ l. l ++ uart_text ps) (sym (append-nil _))

  usb_text-cons :
      (p : Piece) (ps : List Piece) → usb_text (p ∷ ps) ≡ usb_text (p ∷ []) ++ usb_text ps
  unfolding usb_text
  usb_text-cons (text s) ps = ap (λ l. l ++ usb_text ps) (sym (append-nil _))
  usb_text-cons (word v) ps = ap (λ l. l ++ usb_text ps) (sym (append-nil _))

-- The calls one after the other are one call with all the characters.
print_calls :
    (cdc : Cdc) (d : cdc.Device) (ps : List Piece) (out : Out)
    → ((print cdc ps d out).uart ≡ out.uart ++ uart_text ps)
      × ((print cdc ps d out).usb ≡ usb_serial_write cdc (usb_text ps) out.usb d)
unfolding print uart_text usb_text
print_calls cdc d [] out = (sym (append-nil _), sym (usb_serial_write-nil cdc d out.usb))
print_calls cdc d (p ∷ ps) out =
    let rest = print_calls cdc d ps (put cdc p d out) in
    (
      rest.0
          ∙ ap (λ l. l ++ uart_text ps) (put-uart cdc d p out)
          ∙ append_assoc out.uart _ _
          ∙ ap (λ l. out.uart ++ l) (sym (uart_text-cons cdc d p ps)),
      rest.1
          ∙ ap (λ u. usb_serial_write cdc (usb_text ps) u d) (put-usb cdc d p out)
          ∙ sym (usb_serial_write-append cdc d _ _ out.usb)
          ∙ ap (λ l. usb_serial_write cdc l out.usb d) (sym (usb_text-cons cdc d p ps)),
    )

-- On well-formed rings, any run of console calls sends all its text to the UART and queues it for
-- USB in order, behind what is queued: as many of its bytes as there is room for, so that what a
-- full ring drops is the end of the text, or none while the console is off or the host away; the
-- receive queue does not change and the rings stay well-formed.
pub print_lem :
    (cdc : Cdc) (d : cdc.Device) (ps : List Piece) (out : Out)
    → IsUsb (out.usb)
    → let after = print cdc ps d out in
      (after.uart ≡ out.uart ++ uart_text ps)
      × (tx_queue (after.usb) ≡ tx_queue (out.usb) ++ accepted cdc d (out.usb) (usb_text ps))
      × (rx_queue (after.usb) ≡ rx_queue (out.usb))
      × IsUsb (after.usb)
print_lem cdc d ps out h =
    let calls = print_calls cdc d ps out in
    let written = usb_serial_write_lem cdc d (usb_text ps) h in
    (
      calls.0,
      ap tx_queue calls.1 ∙ written.0,
      ap rx_queue calls.1 ∙ written.1,
      subst IsUsb (sym calls.1) written.2,
    )
