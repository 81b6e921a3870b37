-- ===== src/UsbSerial/Poll.antt =====
-- What the calls of shared/usb_serial.c leave of the two queues, whatever the device does.
use mathlib.Core.List.{append_assoc, append-nil}
use sg2002_kraken.Base.{
  bit_or, bit_and, u32, ◌<<<◌, ◌^◌, bit_or-zero, bit_and_mask, bit_or_high, bit_or_comm, ℕ, zero,
  suc, ◌+◌, ◌*◌, ◌<◌, ◌≡◌, refl, sym, ap, ◌∙◌, List, [], ◌∷◌, ◌++◌, arith, length, take, drop, true,
  false, if◌then◌else◌, drop-drop,
}
use sg2002_kraken.Kraken.Config.{usb_serial_ring_size, usb_serial_proto_acm}
use sg2002_kraken.Kraken.UsbState
use sg2002_kraken.Kraken.Structs.{UsbCtrl}
use sg2002_kraken.UsbSerial.{
  Cdc, Callback, mount, umount, suspend, resume, rx, line_state, on_callback, on_callbacks,
  chunk_size, tx_chunk, store_rx, pump_rx_from, pump_rx_from_tinyusb, pump_tx_from,
  pump_tx_to_tinyusb, usb_serial_poll, tud_cdc_line_state_cb, usb_serial_set_state, tx_ring_used,
}
use sg2002_kraken.UsbSerial.Queue.{IsUsb, tx_queue, rx_queue, room, tud_cdc_line_state_cb_lem}
use sg2002_kraken.UsbSerial.Calls.{tx_chunk_lem}
use sg2002_kraken.UsbSerial.Store.{store_rx_lem}
use sg2002_kraken.UsbSerial.Ring.{length-contents, used-lt}

-- From `u` to `v`, bytes have gone from the front of the transmit queue and come to the end of the
-- receive queue, and nothing else has happened to them.
pub record Moves (u v : UsbCtrl) : Type 0 where
  pub sent : ℕ
  pub sending : tx_queue v ≡ drop sent (tx_queue u)
  pub bytes : List ℕ
  pub received : rx_queue v ≡ rx_queue u ++ bytes
  pub rings : IsUsb v

refl-Moves : {u : UsbCtrl} → IsUsb u → Moves u u
refl-Moves {u} h = record {
  sent = 0;
  sending = refl;
  bytes = [];
  received = sym (append-nil (rx_queue u));
  rings = h;
}

trans-Moves : {u v w : UsbCtrl} → Moves u v → Moves v w → Moves u w
trans-Moves {u} f g = record {
  sent = f.sent + g.sent;
  sending = g.sending ∙ ap (drop (g.sent)) f.sending ∙ drop-drop f.sent g.sent (tx_queue u);
  bytes = f.bytes ++ g.bytes;
  received =
      g.received ∙ ap (λ l. l ++ g.bytes) f.received ∙ append_assoc (rx_queue u) f.bytes g.bytes;
  rings = g.rings;
}

-- A new state or a new flag word.
note-Moves :
    {u v : UsbCtrl} (state flags error_code : ℕ)
    → Moves u v
    → Moves u (record v { state = state; flags = flags; last_error = error_code })
unfolding tx_queue rx_queue
note-Moves state flags error_code f = record {
  sent = f.sent;
  sending = f.sending;
  bytes = f.bytes;
  received = f.received;
  rings = record { tx = f.rings.tx; rx = f.rings.rx };
}

drop_all : (xs : List ℕ) → drop (length xs) xs ≡ []
drop_all [] = refl
drop_all (x ∷ xs) = drop_all xs

on_callback-Moves : (c : Callback) {u : UsbCtrl} → IsUsb u → Moves u (on_callback c u)
unfolding on_callback usb_serial_set_state
on_callback-Moves mount {u} h = note-Moves UsbState.active u.flags 0 (refl-Moves h)
on_callback-Moves umount {u} h = note-Moves UsbState.ready u.flags 0 (refl-Moves h)
on_callback-Moves suspend h = refl-Moves h
on_callback-Moves resume h = refl-Moves h
on_callback-Moves rx h = refl-Moves h
on_callback-Moves (line_state true) {u} h =
    unfold tud_cdc_line_state_cb in note-Moves UsbState.active u.flags 0 (refl-Moves h)
on_callback-Moves (line_state false) {u} h =
    let dropped = tud_cdc_line_state_cb_lem h in
    record {
      sent = length (tx_queue u);
      sending = dropped.0 ∙ sym (drop_all (tx_queue u));
      bytes = [];
      received = dropped.1 ∙ sym (append-nil (rx_queue u));
      rings = dropped.2;
    }

on_callbacks-Moves : (cs : List Callback) {u : UsbCtrl} → IsUsb u → Moves u (on_callbacks cs u)
unfolding on_callbacks
on_callbacks-Moves [] h = refl-Moves h
on_callbacks-Moves (c ∷ cs) h =
    let first = on_callback-Moves c h in trans-Moves first (on_callbacks-Moves cs first.rings)

store_rx-Moves : (bs : List ℕ) {u : UsbCtrl} → IsUsb u → Moves u (store_rx bs u)
store_rx-Moves bs {u} h =
    let stored = store_rx_lem bs h in
    record {
      sent = 0;
      sending = stored.1;
      bytes = take (room (rx_queue u)) bs;
      received = stored.0;
      rings = stored.2;
    }

tx_chunk-Moves : (n : ℕ) {u : UsbCtrl} → IsUsb u → Moves u ((tx_chunk n u).1)
tx_chunk-Moves n {u} h =
    let taken = tx_chunk_lem n h in
    record {
      sent = n;
      sending = taken.1;
      bytes = [];
      received = taken.2 ∙ sym (append-nil (rx_queue u));
      rings = taken.3;
    }

module _ (cdc : Cdc) where
  open cdc use {Device, inited, task, connected, read, write}

  pump_rx_from-Moves :
      (fuel : ℕ) {u : UsbCtrl} (d : Device) → IsUsb u → Moves u ((pump_rx_from cdc fuel u d).0)
  unfolding pump_rx_from
  pump_rx_from-Moves zero d h = refl-Moves h
  pump_rx_from-Moves (suc fuel) {u} d h =
      let first = store_rx-Moves ((read chunk_size d).0) h in
      let rest = pump_rx_from-Moves fuel ((read chunk_size d).1) first.rings in
      ground (arith, refl-Moves h, trans-Moves first rest)

  pump_tx_from-Moves :
      (fuel : ℕ) {u : UsbCtrl} (d : Device) → IsUsb u → Moves u ((pump_tx_from cdc fuel u d).0)
  unfolding pump_tx_from
  pump_tx_from-Moves zero d h = refl-Moves h
  pump_tx_from-Moves (suc fuel) {u} d h =
      let first = tx_chunk-Moves chunk_size h in
      let rest = pump_tx_from-Moves fuel ((write ((tx_chunk chunk_size u).0) d).1) first.rings in
      ground (arith, refl-Moves h, first, trans-Moves first rest)

  pump_tx_to_tinyusb-Moves :
      {u : UsbCtrl} (d : Device) → IsUsb u → Moves u ((pump_tx_to_tinyusb cdc u d).0)
  unfolding pump_tx_to_tinyusb
  pump_tx_to_tinyusb-Moves d h =
      ground (arith, refl-Moves h, pump_tx_from-Moves usb_serial_ring_size d h)

-- The flag word of the poll: the protocol and, above it, the number of the bytes that wait.
flags_lem :
    (n : ℕ)
    → n < usb_serial_ring_size
    → bit_or usb_serial_proto_acm (u32 (bit_and n 0xffff <<< 16)) ≡ usb_serial_proto_acm + n * 65536
flags_lem n h =
    ap (bit_or usb_serial_proto_acm) {x = u32 (bit_and n 0xffff <<< 16)} {y = n * 2 ^ 16}
      (omega (arith, bit_and_mask 16 n))
    ∙ bit_or_high 16 0 1 n (omega arith)
    ∙ omega (arith, bit_or_comm 0 n, bit_or-zero n)

tx_ring_used_lem :
    {u : UsbCtrl}
    → IsUsb u
    → (tx_ring_used u ≡ length (tx_queue u)) × (length (tx_queue u) < usb_serial_ring_size)
unfolding tx_ring_used tx_queue
tx_ring_used_lem {u} h =
    let same = length-contents u.tx_ring u.tx_head u.tx_tail in
    (sym same, omega (arith, same, used-lt u.tx_head u.tx_tail h.tx))

module _ (cdc : Cdc) where
  open cdc use {Device, inited, task, connected}

  -- On well-formed rings and a device that is set up, whatever it calls back, gives and takes, a
  -- poll keeps the rings well-formed, takes bytes from the front of the transmit queue only and
  -- adds them at the end of the receive queue only; it leaves the state that the connection has
  -- then, and a flag word with the number of the bytes that still wait to be sent in its upper
  -- half.
  pub usb_serial_poll_lem :
      {u : UsbCtrl} (d : Device)
      → inited d ≡ true
      → IsUsb u
      → let (after, d') = usb_serial_poll cdc u d in
        Moves u after
        × (after.state ≡ (if connected d' then UsbState.active else UsbState.ready))
        × (after.flags ≡ usb_serial_proto_acm + length (tx_queue after) * 65536)
  unfolding usb_serial_poll pump_rx_from_tinyusb tx_queue
  usb_serial_poll_lem {u} d on h =
      let called = on_callbacks-Moves ((task d).0) h in
      let d₁ = (task d).1 in
      let (u₂, d₂) = pump_rx_from_tinyusb cdc (on_callbacks ((task d).0) u) d₁ in
      let (u₃, d₃) = pump_tx_to_tinyusb cdc u₂ d₂ in
      let got = pump_rx_from-Moves cdc usb_serial_ring_size d₁ called.rings in
      let all = trans-Moves called (trans-Moves got (pump_tx_to_tinyusb-Moves cdc d₂ got.rings)) in
      let counted = tx_ring_used_lem all.rings in
      rw on (
        note-Moves (if connected d₃ then UsbState.active else UsbState.ready)
            (bit_or usb_serial_proto_acm (u32 (bit_and (tx_ring_used u₃) 0xffff <<< 16)))
            u₃.last_error all,
        refl,
        ap (λ n. bit_or usb_serial_proto_acm (u32 (bit_and n 0xffff <<< 16))) counted.0
            ∙ flags_lem (length (tx_queue u₃)) counted.1,
      )
