-- ===== src/UsbSerial/Pump.antt =====
-- The transmit pump of shared/usb_serial.c.
use sg2002_kraken.Base.{
  ℕ, zero, suc, ◌<◌, ◌≡◌, ◌≢◌, refl, sym, ap, ◌∙◌, List, [], ◌∷◌, arith, length, take, drop, true,
  subst,
}
use sg2002_kraken.Kraken.Config.{usb_serial_ring_size}
use sg2002_kraken.Kraken.Structs.{UsbCtrl}
use sg2002_kraken.UsbSerial.{Cdc, chunk_size, tx_chunk, pump_tx_from, pump_tx_to_tinyusb}
use sg2002_kraken.UsbSerial.Ring.{length-contents, used}
use sg2002_kraken.UsbSerial.Queue.{IsUsb, tx_queue}
use sg2002_kraken.UsbSerial.Calls.{tx_chunk_lem}

module _ (cdc : Cdc) where
  open cdc use {Device, connected, write, write_flush}

  pub pump_stops :
      (fuel : ℕ) (u : UsbCtrl) (d : Device)
      → u.tx_tail ≡ u.tx_head
      → pump_tx_from cdc fuel u d ≡ (u, write_flush d)
  unfolding pump_tx_from
  pump_stops zero u d e = refl
  pump_stops (suc fuel) u d e = ground arith

  pub pump_goes_on :
      (fuel : ℕ) (u : UsbCtrl) (d : Device)
      → u.tx_tail ≢ u.tx_head
      → (write ((tx_chunk chunk_size u).0) d).0 ≡ length ((tx_chunk chunk_size u).0)
      → pump_tx_from cdc (suc fuel) u d
        ≡ pump_tx_from cdc fuel
            ((tx_chunk chunk_size u).1)
            ((write ((tx_chunk chunk_size u).0) d).1)
  unfolding pump_tx_from
  pump_goes_on fuel u d ne full = ground arith

  pub used_iff_queue : {u : UsbCtrl} → IsUsb u → length (tx_queue u) ≡ used u.tx_head u.tx_tail
  unfolding tx_queue
  used_iff_queue {u} h = length-contents u.tx_ring u.tx_head u.tx_tail

  pub no_bytes : (bytes : List ℕ) → length bytes ≡ 0 → bytes ≡ []
  no_bytes [] e = refl
  no_bytes (b ∷ bs) e = absurd (omega (arith, e))

  pub some_left : {u : UsbCtrl} → IsUsb u → u.tx_tail ≢ u.tx_head → 0 < length (tx_queue u)
  some_left h ne = ground (arith, used_iff_queue h, h.tx)

  pub none_left : {u : UsbCtrl} → IsUsb u → u.tx_tail ≡ u.tx_head → length (tx_queue u) ≡ 0
  none_left h e = ground (arith, used_iff_queue h, h.tx)

  pub pump_connected :
      (u : UsbCtrl) (d : Device)
      → connected d ≡ true
      → pump_tx_to_tinyusb cdc u d ≡ pump_tx_from cdc usb_serial_ring_size u d
  unfolding pump_tx_to_tinyusb
  pump_connected u d e = rw e refl

  pub pump_breaks :
      (fuel : ℕ) (u : UsbCtrl) (d : Device)
      → u.tx_tail ≢ u.tx_head
      → (write ((tx_chunk chunk_size u).0) d).0 ≢ length ((tx_chunk chunk_size u).0)
      → pump_tx_from cdc (suc fuel) u d ≡ (
        (tx_chunk chunk_size u).1,
        write_flush (write_flush ((write ((tx_chunk chunk_size u).0) d).1)),
      )
  unfolding pump_tx_from
  pump_breaks fuel u d ne part = ground arith

  -- On well-formed rings, while the host is connected, bytes wait and the device does not take
  -- all of the first chunk, the pump stops with the whole chunk gone from the queue, after one
  -- write and two flushes.
  pub pump_tx_to_tinyusb_partial :
      {u : UsbCtrl} (d : Device)
      → connected d ≡ true
      → IsUsb u
      → tx_queue u ≢ []
      → (write (take chunk_size (tx_queue u)) d).0 ≢ length (take chunk_size (tx_queue u))
      → let (after, d') = pump_tx_to_tinyusb cdc u d in
        (tx_queue after ≡ drop chunk_size (tx_queue u))
        × (d' ≡ write_flush (write_flush ((write (take chunk_size (tx_queue u)) d).1)))
  pump_tx_to_tinyusb_partial {u} d online h waiting part =
      let c = tx_chunk_lem chunk_size h in
      rw
        (pump_connected u d online
          ∙ pump_breaks 511 u d (λ e. waiting (no_bytes _ (none_left h e)))
              (subst (λ bytes. (write bytes d).0 ≢ length bytes) (sym c.0) part))
        (c.1, ap (λ bytes. write_flush (write_flush ((write bytes d).1))) c.0)
