-- ===== src/UsbSerial/Through.antt =====
-- shared/usb_serial.c from end to end: from a write to what the device takes.
use mathlib.Core.List.{append_assoc, append-nil}
use sg2002_kraken.Base.{
  ℕ, zero, suc, ◌+◌, ◌-◌, ◌*◌, ◌/◌, ◌≤◌, ◌<◌, ◌≡◌, ◌≢◌, refl, sym, ap, ◌∙◌, List, ◌++◌, arith, min,
  length, take, drop, true, length-drop, length-take, drop-drop, drop-nil, dec_le, ℕ_discrete,
}
use sg2002_kraken.Kraken.Config.{usb_serial_ring_size}
use sg2002_kraken.Kraken.Structs.{UsbCtrl}
use sg2002_kraken.UsbSerial.{
  Cdc, chunk_size, tx_chunk, usb_serial_write, pump_tx_from, pump_tx_to_tinyusb,
}
use sg2002_kraken.UsbSerial.Ring.{used-lt}
use sg2002_kraken.UsbSerial.Queue.{IsUsb, tx_queue, rx_queue, take-nil}
use sg2002_kraken.UsbSerial.Calls.{tx_chunk_lem}
use sg2002_kraken.UsbSerial.Store.{take-split, drop_past}
use sg2002_kraken.UsbSerial.Pump.{
  pump_stops, pump_goes_on, pump_breaks, pump_connected, no_bytes, some_left, none_left,
  used_iff_queue,
}
use sg2002_kraken.UsbSerial.Write.{accepted, usb_serial_write_lem}

-- The chunks that the pump takes from the queue for a device with `space` free places: it stops
-- behind the first that does not fit.
abbrev pub gone : (space : ℕ) → ℕ
gone space = chunk_size * (space / chunk_size + 1)

-- A chunk of the queue `q` for a device with `space` free places.
module _ (q : List ℕ) (space : ℕ) where
  abbrev chunk : List ℕ
  chunk = take chunk_size q

  length-chunk : length chunk ≡ min chunk_size (length q)
  length-chunk = length-take chunk_size q

  whole_taken :
      length chunk ≤ space
      → take space chunk ++ take (space - length chunk) (drop chunk_size q) ≡ take space q
  whole_taken fits = elim (dec_le chunk_size (length q)) [
    | yes enough ↦
        ap (λ k. take space chunk ++ take k (drop chunk_size q))
          (omega (arith, length-chunk, enough))
        ∙ sym (take-split space chunk_size q)
    | no few ↦
        let none = drop_past chunk_size q (omega (arith, few)) in
        ap (λ l. take space chunk ++ l)
          (ap (take (space - length chunk)) none
            ∙ take-nil _
            ∙ sym (ap (take (space - chunk_size)) none ∙ take-nil _))
        ∙ sym (take-split space chunk_size q)
  ]

  whole_left :
      length chunk ≤ space
      → drop (gone (space - length chunk)) (drop chunk_size q) ≡ drop (gone space) q
  whole_left fits = elim (dec_le chunk_size (length q)) [
    | yes enough ↦
        drop-drop chunk_size (gone (space - length chunk)) q
        ∙ ap (λ k. drop k q) (omega (arith, length-chunk, enough, fits))
    | no few ↦
        ap (drop (gone (space - length chunk))) (drop_past chunk_size q (omega (arith, few)))
        ∙ drop-nil _
        ∙ sym (drop_past (gone space) q (omega (arith, few)))
  ]

  part_taken : space < length chunk → take space chunk ≡ take space q
  part_taken part = sym (
      take-split space chunk_size q
      ∙ ap (λ k. take space chunk ++ take k (drop chunk_size q)) {y = 0}
          (omega (arith, length-chunk, part))
      ∙ append-nil (take space chunk))

  part_left : space < length chunk → drop chunk_size q ≡ drop (gone space) q
  part_left part =
      ap (λ k. drop k q) {x = chunk_size} {y = gone space} (omega (arith, length-chunk, part))

-- The transmit FIFO of a connected device: it takes what there is space for, in order, and is not
-- drained while the pump runs.
pub record IsSink (cdc : Cdc) (space : cdc.Device → ℕ) (taken : cdc.Device → List ℕ) : Type 0 where
  pub takes :
      (bytes : List ℕ) (d : cdc.Device)
      → cdc.connected d ≡ true
      → (cdc.write bytes d).0 ≡ min (length bytes) (space d)
  pub keeps :
      (bytes : List ℕ) (d : cdc.Device)
      → cdc.connected d ≡ true
      → taken ((cdc.write bytes d).1) ≡ taken d ++ take (space d) bytes
  pub leaves :
      (bytes : List ℕ) (d : cdc.Device)
      → cdc.connected d ≡ true
      → space ((cdc.write bytes d).1) ≡ space d - length bytes
  pub stays :
      (bytes : List ℕ) (d : cdc.Device)
      → cdc.connected d ≡ true
      → cdc.connected ((cdc.write bytes d).1) ≡ true
  pub flushes : (d : cdc.Device) → taken (cdc.write_flush d) ≡ taken d

module _ (cdc : Cdc) (space : cdc.Device → ℕ) (taken : cdc.Device → List ℕ)
    (sink : IsSink cdc space taken) where
  open cdc use {Device, connected, write, write_flush}

  -- What the pump leaves, from a state `u` and a device `d`.
  record Sent (u : UsbCtrl) (d : Device) (r : UsbCtrl × Device) : Type 0 where
    queue : tx_queue (r.0) ≡ drop (gone (space d)) (tx_queue u)
    got : taken (r.1) ≡ taken d ++ take (space d) (tx_queue u)
    received : rx_queue (r.0) ≡ rx_queue u
    rings : IsUsb (r.0)

  stops-Sent :
      {u : UsbCtrl} (d : Device) → IsUsb u → length (tx_queue u) ≡ 0 → Sent u d (u, write_flush d)
  stops-Sent {u} d h e =
      let none = no_bytes cdc (tx_queue u) e in
      record {
        queue = none ∙ sym (ap (drop (gone (space d))) none ∙ drop-nil _);
        got =
            sink.flushes d
            ∙ sym (
                ap (λ l. taken d ++ l) (ap (take (space d)) none ∙ take-nil _)
                ∙ append-nil (taken d));
        received = refl;
        rings = h;
      }

  -- A round whose chunk does not fit.
  breaks-Sent :
      (fuel : ℕ) {u : UsbCtrl} (d : Device)
      → IsUsb u
      → connected d ≡ true
      → u.tx_tail ≢ u.tx_head
      → space d < length (take chunk_size (tx_queue u))
      → Sent u d (pump_tx_from cdc (suc fuel) u d)
  breaks-Sent fuel {u} d h online ne part =
      let c = tx_chunk_lem chunk_size h in
      let bytes = (tx_chunk chunk_size u).0 in
      rw
        (pump_breaks cdc fuel u d ne
          (omega (arith, sink.takes bytes d online, ap length c.0, part)))
        (record {
          queue = c.1 ∙ part_left (tx_queue u) (space d) part;
          got =
              sink.flushes _
              ∙ sink.flushes _
              ∙ sink.keeps bytes d online
              ∙ ap (λ l. taken d ++ l)
                  (ap (take (space d)) c.0 ∙ part_taken (tx_queue u) (space d) part);
          received = c.2;
          rings = c.3;
        })

  -- A round whose chunk fits, and the rest.
  fits-Sent :
      (fuel : ℕ) {u : UsbCtrl} (d : Device)
      → IsUsb u
      → connected d ≡ true
      → u.tx_tail ≢ u.tx_head
      → length (take chunk_size (tx_queue u)) ≤ space d
      → (let (bytes, after) = tx_chunk chunk_size u in
          Sent after ((write bytes d).1) (pump_tx_from cdc fuel after ((write bytes d).1)))
      → Sent u d (pump_tx_from cdc (suc fuel) u d)
  fits-Sent fuel {u} d h online ne fits rest =
      let c = tx_chunk_lem chunk_size h in
      let bytes = (tx_chunk chunk_size u).0 in
      let left = sink.leaves bytes d online ∙ ap (λ l. space d - length l) c.0 in
      rw
        (pump_goes_on cdc fuel u d ne
          (omega (arith, sink.takes bytes d online, ap length c.0, fits)))
        (record {
          queue =
              rest.queue
              ∙ (λ i. drop (gone (left i)) (c.1 i))
              ∙ whole_left (tx_queue u) (space d) fits;
          got =
              rest.got
              ∙ (λ i. sink.keeps bytes d online i ++ take (left i) (c.1 i))
              ∙ append_assoc (taken d) (take (space d) bytes) _
              ∙ ap (λ l. taken d ++ l)
                  (ap
                      (λ l.
                        take (space d) l
                        ++ take (space d - length (take chunk_size (tx_queue u)))
                            (drop chunk_size (tx_queue u)))
                      c.0
                    ∙ whole_taken (tx_queue u) (space d) fits);
          received = rest.received ∙ c.2;
          rings = rest.rings;
        })

  pump_tx_from-Sent :
      (fuel : ℕ) {u : UsbCtrl} (d : Device)
      → IsUsb u
      → connected d ≡ true
      → length (tx_queue u) ≤ fuel
      → Sent u d (pump_tx_from cdc fuel u d)
  pump_tx_from-Sent zero {u} d h online enough = elim (ℕ_discrete u.tx_tail u.tx_head) [
    | yes e ↦ rw (pump_stops cdc zero u d e) (stops-Sent d h (none_left cdc h e))
    | no ne ↦ absurd (omega (arith, some_left cdc h ne))
  ]
  pump_tx_from-Sent (suc fuel) {u} d h online enough = elim (ℕ_discrete u.tx_tail u.tx_head) [
    | yes e ↦ rw (pump_stops cdc (suc fuel) u d e) (stops-Sent d h (none_left cdc h e))
    | no ne ↦
        let c = tx_chunk_lem chunk_size h in
        let bytes = (tx_chunk chunk_size u).0 in
        elim (dec_le (length (take chunk_size (tx_queue u))) (space d)) [
          | yes fits ↦ fits-Sent fuel d h online ne fits (
              pump_tx_from-Sent fuel ((write bytes d).1) c.3 (sink.stays bytes d online) (
                omega
                  (arith, ap length c.1, length-drop chunk_size (tx_queue u), some_left cdc h ne)))
          | no part ↦ breaks-Sent fuel d h online ne (omega (arith, part))
        ]
  ]

  -- On well-formed rings, with the host connected and a device whose FIFO takes what it has space
  -- for and is not drained meanwhile, a write and the pump behind it hand the device, in order,
  -- as much of the queued bytes and of the accepted text as it has space for; whole chunks of 32
  -- leave the queue, up to and with the first that does not fit, so the rest of that one is lost;
  -- the receive queue does not change and the rings stay well-formed.
  pub write_and_pump_lem :
      (text : List ℕ) {u : UsbCtrl} (d : Device)
      → IsUsb u
      → connected d ≡ true
      → let queued = tx_queue u ++ accepted cdc d u text in
        let (after, d') = pump_tx_to_tinyusb cdc (usb_serial_write cdc text u d) d in
        (taken d' ≡ taken d ++ take (space d) queued)
        × (tx_queue after ≡ drop (gone (space d)) queued)
        × (rx_queue after ≡ rx_queue u)
        × IsUsb after
  write_and_pump_lem text {u} d h online =
      let v = usb_serial_write cdc text u d in
      let written = usb_serial_write_lem cdc d text h in
      let all =
        pump_tx_from-Sent usb_serial_ring_size d written.2 online
          (omega (arith, used_iff_queue cdc written.2, used-lt v.tx_head v.tx_tail written.2.tx)) in
      rw (pump_connected cdc v d online) (
        all.got ∙ ap (λ q. taken d ++ take (space d) q) written.0,
        all.queue ∙ ap (drop (gone (space d))) written.0,
        all.received ∙ written.1,
        all.rings,
      )
