-- ===== src/UsbSerial/Write.antt =====
-- `usb_serial_write` of shared/usb_serial.c, called several times.
use mathlib.Core.List.{append-nil}
use sg2002_kraken.Base.{
  ℕ, take, if◌then◌else◌, ◌≡◌, refl, sym, Bool-cases, inl, inr, true, List, [], ◌∷◌, ◌++◌, ◌==◌,
}
use sg2002_kraken.Kraken.Structs.{UsbCtrl}
use sg2002_kraken.UsbSerial.Queue.{IsUsb, tx_queue, rx_queue, room, bytes_of}
use sg2002_kraken.UsbSerial.Calls.{write_bytes_lem}
use sg2002_kraken.UsbSerial.{Cdc, ring_next, write_bytes, usb_serial_write}

-- A full ring takes nothing.
write_bytes_full :
    (ys : List ℕ) (u : UsbCtrl) → (ring_next u.tx_head == u.tx_tail) ≡ true → write_bytes ys u ≡ u
unfolding write_bytes
write_bytes_full [] u e = refl
write_bytes_full (b ∷ ys) u e = rw e refl

pub write_bytes-append :
    (xs ys : List ℕ) (u : UsbCtrl) → write_bytes (xs ++ ys) u ≡ write_bytes ys (write_bytes xs u)
unfolding write_bytes
write_bytes-append [] ys u = refl
write_bytes-append (x ∷ xs) ys u = elim (Bool-cases (ring_next u.tx_head == u.tx_tail)) [
  | inl e ↦ rw e (sym (write_bytes_full ys u e))
  | inr e ↦ rw e (write_bytes-append xs ys _)
]

write_bytes-enabled :
    (ys : List ℕ) (u : UsbCtrl) → (write_bytes ys u).console_enabled ≡ u.console_enabled
unfolding write_bytes
write_bytes-enabled [] u = refl
write_bytes-enabled (b ∷ ys) u = elim (Bool-cases (ring_next u.tx_head == u.tx_tail)) [
  | inl e ↦ rw e refl
  | inr e ↦ rw e (write_bytes-enabled ys _)
]

module _ (cdc : Cdc) (d : cdc.Device) where
  pub usb_serial_write-append :
      (xs ys : List ℕ) (u : UsbCtrl)
      → usb_serial_write cdc (xs ++ ys) u d
        ≡ usb_serial_write cdc ys (usb_serial_write cdc xs u d) d
  unfolding usb_serial_write write_bytes
  usb_serial_write-append xs ys u = elim (Bool-cases (u.console_enabled == 0)) [
    | inl e ↦ rw (e, e) refl
    | inr e ↦ elim (Bool-cases (cdc.connected d)) [
      | inl c ↦ rw (e, c, write_bytes-enabled xs u, e) (write_bytes-append xs ys u)
      | inr c ↦ rw (e, c, e) refl
    ]
  ]

  pub usb_serial_write-nil : (u : UsbCtrl) → usb_serial_write cdc [] u d ≡ u
  unfolding usb_serial_write write_bytes
  usb_serial_write-nil u = elim (Bool-cases (u.console_enabled == 0)) [
    | inl e ↦ rw e refl
    | inr e ↦ elim (Bool-cases (cdc.connected d)) [
      | inl c ↦ rw (e, c) refl
      | inr c ↦ rw (e, c) refl
    ]
  ]

-- What the transmit queue gets of a text: nothing while the console is off or the host away, else
-- as many bytes as there is room for.
abbrev pub accepted : (cdc : Cdc) → cdc.Device → UsbCtrl → List ℕ → List ℕ
accepted cdc d u bytes =
    if u.console_enabled == 0
    then []
    else if cdc.connected d
    then take (room (tx_queue u)) (bytes_of bytes)
    else []

pub usb_serial_write_lem :
    (cdc : Cdc) (d : cdc.Device) (bytes : List ℕ) {u : UsbCtrl}
    → IsUsb u
    → let v = usb_serial_write cdc bytes u d in
      (tx_queue v ≡ tx_queue u ++ accepted cdc d u bytes) × (rx_queue v ≡ rx_queue u) × IsUsb v
unfolding usb_serial_write
usb_serial_write_lem cdc d bytes {u} h = elim (Bool-cases (u.console_enabled == 0)) [
  | inl e ↦ rw e (sym (append-nil (tx_queue u)), refl, h)
  | inr e ↦ elim (Bool-cases (cdc.connected d)) [
    | inl c ↦ rw (e, c) (write_bytes_lem bytes h)
    | inr c ↦ rw (e, c) (sym (append-nil (tx_queue u)), refl, h)
  ]
]
