-- ===== src/UsbSerial/Receive.antt =====
-- The receive pump of shared/usb_serial.c.
use mathlib.Core.List.{append-nil}
use sg2002_kraken.Base.{
  ℕ, zero, suc, ◌≤◌, ◌≡◌, ◌≢◌, ◌⊎◌, inl, inr, refl, sym, ap, ◌∙◌, List, ◌++◌, arith, length, take,
  drop, ℕ_discrete, length-take, drop-nil, length-append,
}
use sg2002_kraken.Kraken.Config.{usb_serial_ring_size}
use sg2002_kraken.Kraken.Structs.{UsbCtrl}
use sg2002_kraken.UsbSerial.{
  Cdc, rx_ring_free, chunk_size, store_rx, pump_rx_from, pump_rx_from_tinyusb,
}
use sg2002_kraken.UsbSerial.Queue.{IsUsb, tx_queue, rx_queue, room, take-nil}
use sg2002_kraken.UsbSerial.Store.{
  store_rx_lem, queue_small, rx_ring_free_lem, no_bytes, whole_chunks, chunk_queue, chunk_left,
}

-- The device holds the bytes that it has received in order: `tud_cdc_n_available` counts them, and
-- `tud_cdc_n_read` takes the oldest.
pub record IsFifo (cdc : Cdc) (pending : cdc.Device → List ℕ) : Type 0 where
  pub counts : (d : cdc.Device) → cdc.available d ≡ length (pending d)
  pub takes : (n : ℕ) (d : cdc.Device) → (cdc.read n d).0 ≡ take n (pending d)
  pub leaves : (n : ℕ) (d : cdc.Device) → pending ((cdc.read n d).1) ≡ drop n (pending d)

module _ (cdc : Cdc) where
  open cdc use {Device, available, read}

  rx_stops :
      (fuel : ℕ) (u : UsbCtrl) (d : Device)
      → (available d ≡ 0) ⊎ (rx_ring_free u ≡ 0)
      → pump_rx_from cdc fuel u d ≡ (u, d)
  unfolding pump_rx_from
  rx_stops zero u d e = refl
  rx_stops (suc fuel) u d e = ground arith

  rx_goes_on :
      (fuel : ℕ) (u : UsbCtrl) (d : Device)
      → available d ≢ 0
      → rx_ring_free u ≢ 0
      → length ((read chunk_size d).0) ≢ 0
      → pump_rx_from cdc (suc fuel) u d
        ≡ pump_rx_from cdc fuel (store_rx ((read chunk_size d).0) u) ((read chunk_size d).1)
  unfolding pump_rx_from
  rx_goes_on fuel u d some_there free got = ground arith

module _ (cdc : Cdc) (pending : cdc.Device → List ℕ) (fifo : IsFifo cdc pending) where
  open cdc use {Device, available, read}

  -- What the pump leaves, from a state `u` and a device `d`.
  record Received (u : UsbCtrl) (d : Device) (r : UsbCtrl × Device) : Type 0 where
    queue : rx_queue (r.0) ≡ rx_queue u ++ take (room (rx_queue u)) (pending d)
    left : pending (r.1) ≡ drop (whole_chunks (room (rx_queue u))) (pending d)
    sending : tx_queue (r.0) ≡ tx_queue u
    rings : IsUsb (r.0)

  -- Where nothing waits or nothing fits, there is no round.
  stays-Received :
      {u : UsbCtrl} (d : Device)
      → IsUsb u
      → (length (pending d) ≡ 0) ⊎ (room (rx_queue u) ≡ 0)
      → Received u d (u, d)
  stays-Received {u} d h (inl e) =
      let none = no_bytes (pending d) e in
      record {
        queue = sym (
            ap (λ l. rx_queue u ++ l) (ap (take (room (rx_queue u))) none ∙ take-nil _)
            ∙ append-nil (rx_queue u));
        left = none ∙ sym (ap (drop (whole_chunks (room (rx_queue u)))) none ∙ drop-nil _);
        sending = refl;
        rings = h;
      }
  stays-Received {u} d h (inr e) = record {
    queue = sym (ap (λ k. rx_queue u ++ take k (pending d)) e ∙ append-nil (rx_queue u));
    left = ap (λ k. drop (whole_chunks k) (pending d)) (sym e);
    sending = refl;
    rings = h;
  }

  pump_rx_from-Received :
      (fuel : ℕ) {u : UsbCtrl} (d : Device)
      → IsUsb u
      → room (rx_queue u) ≤ fuel
      → Received u d (pump_rx_from cdc fuel u d)
  pump_rx_from-Received zero {u} d h enough =
      rw (rx_stops cdc 0 u d (inr (omega (arith, rx_ring_free_lem u))))
        (stays-Received d h (inr (omega arith)))
  pump_rx_from-Received (suc fuel) {u} d h enough = elim (ℕ_discrete (length (pending d)) 0) [
    | yes e ↦
        rw (rx_stops cdc (suc fuel) u d (inl (fifo.counts d ∙ e))) (stays-Received d h (inl e))
    | no some_there ↦ elim (ℕ_discrete (room (rx_queue u)) 0) [
      | yes e ↦
          rw (rx_stops cdc (suc fuel) u d (inr (rx_ring_free_lem u ∙ e)))
            (stays-Received d h (inr e))
      | no free ↦
          let chunk = (read chunk_size d).0 in
          let stored = store_rx_lem chunk h in
          let got =
            stored.0 ∙ ap (λ c. rx_queue u ++ take (room (rx_queue u)) c) (fifo.takes 32 d) in
          let counted = ap length (fifo.takes 32 d) ∙ length-take 32 (pending d) in
          let small = queue_small h in
          let rest = pump_rx_from-Received fuel ((read chunk_size d).1) stored.2 (
            omega (
              arith,
              ap length stored.0,
              length-append (rx_queue u) (take (room (rx_queue u)) chunk),
              length-take (room (rx_queue u)) chunk,
              counted,
              some_there,
              free,
              small,
            )) in
          rw
            (rx_goes_on cdc fuel u d (omega (arith, fifo.counts d, some_there))
              (omega (arith, rx_ring_free_lem u, free)) (omega (arith, counted, some_there)))
            (record {
              queue =
                  rest.queue
                  ∙ (λ i. got i ++ take (room (got i)) (fifo.leaves 32 d i))
                  ∙ chunk_queue (rx_queue u) (pending d) small;
              left =
                  rest.left
                  ∙ (λ i. drop (whole_chunks (room (got i))) (fifo.leaves 32 d i))
                  ∙ chunk_left (rx_queue u) (pending d) small (omega (arith, free));
              sending = rest.sending ∙ stored.1;
              rings = rest.rings;
            })
    ]
  ]

  -- On well-formed rings and a device that gives the bytes it holds in order, the receive pump
  -- queues as many of them as there is room for, behind what is queued; it takes whole chunks of
  -- 32 from the device until nothing is there or nothing more fits, so the bytes of the last
  -- chunk that find no room are lost; the transmit queue does not change and the rings stay
  -- well-formed.
  pub pump_rx_from_tinyusb_lem :
      {u : UsbCtrl} (d : Device)
      → IsUsb u
      → let (after, d') = pump_rx_from_tinyusb cdc u d in
        (rx_queue after ≡ rx_queue u ++ take (room (rx_queue u)) (pending d))
        × (pending d' ≡ drop (whole_chunks (room (rx_queue u))) (pending d))
        × (tx_queue after ≡ tx_queue u)
        × IsUsb after
  unfolding pump_rx_from_tinyusb
  pump_rx_from_tinyusb_lem {u} d h =
      let all = pump_rx_from-Received usb_serial_ring_size d h (omega arith) in
      (all.queue, all.left, all.sending, all.rings)
