-- ===== src/UsbSerial/Calls.antt =====
-- shared/usb_serial.c: writing, reading and the chunks of the device, as steps of the two queues.
use mathlib.Core.List.{append-nil}
use sg2002_kraken.Base.{
  ℕ, zero, suc, ◌≡◌, ◌≢◌, refl, sym, ap, ◌∙◌, List, [], ◌∷◌, ◌++◌, arith, u8, get_or, set, take,
  drop, ℕ_discrete,
}
use sg2002_kraken.Kraken.Structs.{UsbCtrl}
use sg2002_kraken.UsbSerial.{ring_next, write_bytes, usb_serial_read, tx_chunk}
use sg2002_kraken.UsbSerial.Ring.{contents, push-IsRing, pop-IsRing, contents-pop, contents-empty}
use sg2002_kraken.UsbSerial.Queue.{
  IsUsb, tx_queue, rx_queue, room, bytes_of, take-nil, stays, grows,
}

write_full :
    (b : ℕ) (bs : List ℕ) (u : UsbCtrl)
    → ring_next u.tx_head ≡ u.tx_tail
    → write_bytes (b ∷ bs) u ≡ u
unfolding write_bytes
write_full b bs u e = ground arith

write_room :
    (b : ℕ) (bs : List ℕ) (u : UsbCtrl)
    → ring_next u.tx_head ≢ u.tx_tail
    → write_bytes (b ∷ bs) u
      ≡ write_bytes bs
          (record u { tx_ring = set u.tx_ring u.tx_head (u8 b); tx_head = ring_next u.tx_head })
unfolding write_bytes
write_room b bs u ne = ground arith

-- On well-formed rings, writing queues as many bytes of the message as fit, in order, behind what
-- is queued, drops the rest, leaves the receive queue as it was and keeps the rings well-formed.
pub write_bytes_lem :
    (bs : List ℕ) {u : UsbCtrl}
    → IsUsb u
    → (tx_queue (write_bytes bs u) ≡ tx_queue u ++ take (room (tx_queue u)) (bytes_of bs))
      × (rx_queue (write_bytes bs u) ≡ rx_queue u)
      × IsUsb (write_bytes bs u)
unfolding write_bytes tx_queue rx_queue
write_bytes_lem [] {u} h =
    (sym (ap (λ l. tx_queue u ++ l) (take-nil _) ∙ append-nil (tx_queue u)), refl, h)
write_bytes_lem (b ∷ bs) {u} h = elim (ℕ_discrete (ring_next u.tx_head) u.tx_tail) [
  | yes e ↦
      rw (write_full b bs u e)
        (stays u.tx_ring u.tx_head u.tx_tail (u8 b) (bytes_of bs) h.tx e, refl, h)
  | no ne ↦
      let rest =
        write_bytes_lem bs
          {u = record u { tx_ring = set u.tx_ring u.tx_head (u8 b); tx_head = ring_next u.tx_head }}
          (record { tx = push-IsRing u.tx_ring u.tx_head u.tx_tail (u8 b) h.tx; rx = h.rx }) in
      rw (write_room b bs u ne)
        (rest.0 ∙ grows u.tx_ring u.tx_head u.tx_tail (u8 b) (bytes_of bs) h.tx ne, rest.1, rest.2)
]

usb_serial_read_empty :
    (len : ℕ) (u : UsbCtrl) → u.rx_tail ≡ u.rx_head → usb_serial_read len u ≡ ([], u)
unfolding usb_serial_read
usb_serial_read_empty zero u e = refl
usb_serial_read_empty (suc len) u e = ground arith

usb_serial_read_more :
    (len : ℕ) (u : UsbCtrl)
    → u.rx_tail ≢ u.rx_head
    → usb_serial_read (suc len) u ≡ (
        let rest = usb_serial_read len (record u { rx_tail = ring_next u.rx_tail }) in
        (get_or u.rx_ring u.rx_tail 0 ∷ rest.0, rest.1))
unfolding usb_serial_read
usb_serial_read_more len u ne = ground arith

-- On well-formed rings, a read of len bytes returns the oldest bytes, as many as are there and
-- len at most, leaves the others and the transmit queue, and keeps the rings well-formed.
usb_serial_read_lem :
    (len : ℕ) {u : UsbCtrl}
    → IsUsb u
    → let (bytes, after) = usb_serial_read len u in
      (bytes ≡ take len (rx_queue u))
      × (rx_queue after ≡ drop len (rx_queue u))
      × (tx_queue after ≡ tx_queue u)
      × IsUsb after
unfolding rx_queue tx_queue
usb_serial_read_lem zero {u} h = unfold usb_serial_read in (refl, refl, refl, h)
usb_serial_read_lem (suc len) {u} h = elim (ℕ_discrete u.rx_tail u.rx_head) [
  | yes e ↦ rw (usb_serial_read_empty (suc len) u e) (
    sym (ap (take (suc len)) (nothing e)),
    nothing e ∙ sym (ap (drop (suc len)) (nothing e)),
    refl,
    h,
  )
  | no ne ↦
      let first = contents-pop u.rx_ring u.rx_head u.rx_tail h.rx ne in
      let rest =
        usb_serial_read_lem len {u = record u { rx_tail = ring_next u.rx_tail }}
          (record { rx = pop-IsRing u.rx_ring u.rx_head u.rx_tail h.rx; tx = h.tx }) in
      rw (usb_serial_read_more len u ne) (
        ap (λ l. get_or u.rx_ring u.rx_tail 0 ∷ l) rest.0 ∙ sym (ap (take (suc len)) first),
        rest.1 ∙ sym (ap (drop (suc len)) first),
        rest.2,
        rest.3,
      )
]
  where
    nothing : u.rx_tail ≡ u.rx_head → contents u.rx_ring u.rx_head u.rx_tail ≡ []
    nothing e = ap (contents u.rx_ring u.rx_head) e ∙ contents-empty u.rx_ring u.rx_head

tx_chunk_empty : (len : ℕ) (u : UsbCtrl) → u.tx_tail ≡ u.tx_head → tx_chunk len u ≡ ([], u)
unfolding tx_chunk
tx_chunk_empty zero u e = refl
tx_chunk_empty (suc len) u e = ground arith

tx_chunk_more :
    (len : ℕ) (u : UsbCtrl)
    → u.tx_tail ≢ u.tx_head
    → tx_chunk (suc len) u ≡ (
        let rest = tx_chunk len (record u { tx_tail = ring_next u.tx_tail }) in
        (get_or u.tx_ring u.tx_tail 0 ∷ rest.0, rest.1))
unfolding tx_chunk
tx_chunk_more len u ne = ground arith

-- On well-formed rings, the chunk for the device is the oldest queued bytes, as many as there are
-- and len at most; the others stay queued, the receive queue does not change and the rings stay
-- well-formed.
pub tx_chunk_lem :
    (len : ℕ) {u : UsbCtrl}
    → IsUsb u
    → let (bytes, after) = tx_chunk len u in
      (bytes ≡ take len (tx_queue u))
      × (tx_queue after ≡ drop len (tx_queue u))
      × (rx_queue after ≡ rx_queue u)
      × IsUsb after
unfolding rx_queue tx_queue
tx_chunk_lem zero {u} h = unfold tx_chunk in (refl, refl, refl, h)
tx_chunk_lem (suc len) {u} h = elim (ℕ_discrete u.tx_tail u.tx_head) [
  | yes e ↦ rw (tx_chunk_empty (suc len) u e) (
    sym (ap (take (suc len)) (nothing e)),
    nothing e ∙ sym (ap (drop (suc len)) (nothing e)),
    refl,
    h,
  )
  | no ne ↦
      let first = contents-pop u.tx_ring u.tx_head u.tx_tail h.tx ne in
      let rest =
        tx_chunk_lem len {u = record u { tx_tail = ring_next u.tx_tail }}
          (record { tx = pop-IsRing u.tx_ring u.tx_head u.tx_tail h.tx; rx = h.rx }) in
      rw (tx_chunk_more len u ne) (
        ap (λ l. get_or u.tx_ring u.tx_tail 0 ∷ l) rest.0 ∙ sym (ap (take (suc len)) first),
        rest.1 ∙ sym (ap (drop (suc len)) first),
        rest.2,
        rest.3,
      )
]
  where
    nothing : u.tx_tail ≡ u.tx_head → contents u.tx_ring u.tx_head u.tx_tail ≡ []
    nothing e = ap (contents u.tx_ring u.tx_head) e ∙ contents-empty u.tx_ring u.tx_head
