-- ===== src/UsbSerial/Tests.antt =====
-- Runs of the console's rings.
use sg2002_kraken.Base.{
  ◌-◌, min, replicate, length-append, length-take, ℕ, ◌+◌, ◌*◌, drop, List, ◌++◌, ◌≡◌, refl, arith,
  [], ◌∷◌, take, set, true, length, ap,
}
use sg2002_kraken.Kraken.Structs.{UsbCtrl}
use sg2002_kraken.Ctl.Zero.{zero_usb}
use sg2002_kraken.Kraken.UsbState
use sg2002_kraken.UsbSerial.{
  Cdc, pump_tx_to_tinyusb, pump_rx_from_tinyusb, usb_serial_poll, usb_serial_write,
}
use sg2002_kraken.UsbSerial.Receive.{IsFifo, pump_rx_from_tinyusb_lem}
use sg2002_kraken.UsbSerial.Through.{IsSink, write_and_pump_lem}
use sg2002_kraken.UsbSerial.Poll.{Moves, usb_serial_poll_lem}
use sg2002_kraken.UsbSerial.Ring.{contents}
use sg2002_kraken.UsbSerial.Pump.{pump_tx_to_tinyusb_partial}
use sg2002_kraken.UsbSerial.Queue.{IsUsb, tx_queue, rx_queue}

-- Three bytes wait to be sent and two to be read, round the end of the rings.
abbrev busy : UsbCtrl
busy = record zero_usb {
  tx_tail = 510;
  tx_head = 1;
  tx_ring = set zero_usb.tx_ring 510 72;
  rx_tail = 511;
  rx_head = 1;
  rx_ring = set zero_usb.rx_ring 511 99;
}

busy-IsUsb : IsUsb busy
busy-IsUsb = record {
  tx = record { slots = refl; head_in = omega arith; tail_in = omega arith };
  rx = record { slots = refl; head_in = omega arith; tail_in = omega arith };
}

-- A device that keeps what it gets, and one that takes a byte of each chunk.
abbrev recorder : Cdc
recorder = record {
  Device = List ℕ;
  start = λ d. (true, d);
  inited = λ d. true;
  task = λ d. ([], d);
  connected = λ d. true;
  available = λ d. 0;
  read = λ n d. ([], d);
  write = λ bytes d. (length bytes, d ++ bytes);
  write_flush = λ d. d;
}

abbrev slow : Cdc
slow = record {
  Device = List ℕ;
  start = λ d. (true, d);
  inited = λ d. true;
  task = λ d. ([], d);
  connected = λ d. true;
  available = λ d. 0;
  read = λ n d. ([], d);
  write = λ bytes d. (1, d ++ take 1 bytes);
  write_flush = λ d. d;
}

-- Two of the three bytes are lost.
pump_tx_to_tinyusb_partial_example :
    let (after, d') = pump_tx_to_tinyusb slow busy [] in (tx_queue after ≡ []) × (d' ≡ 72 ∷ [])
unfolding tx_queue contents
pump_tx_to_tinyusb_partial_example =
    pump_tx_to_tinyusb_partial slow [] refl busy-IsUsb
      (λ e. absurd (omega (arith, ap (λ (l : List ℕ). length l) e)))
      (λ e. absurd (omega (arith, e)))

-- A device that holds what it has received.
abbrev keeper : Cdc
keeper = record recorder { available = λ d. length d; read = λ n d. (take n d, drop n d) }

keeper-IsFifo : IsFifo keeper (λ d. d)
keeper-IsFifo = record { counts = λ d. refl; takes = λ n d. refl; leaves = λ n d. refl }

pump_rx_from_tinyusb_example :
    let (after, d') = pump_rx_from_tinyusb keeper busy (7 ∷ 8 ∷ 9 ∷ []) in
    (rx_queue after ≡ 99 ∷ 0 ∷ 7 ∷ 8 ∷ 9 ∷ [])
    × (d' ≡ [])
    × (tx_queue after ≡ tx_queue busy)
    × IsUsb after
unfolding rx_queue contents
pump_rx_from_tinyusb_example =
    pump_rx_from_tinyusb_lem keeper (λ d. d) keeper-IsFifo (7 ∷ 8 ∷ 9 ∷ []) busy-IsUsb

usb_serial_poll_example :
    let after = (usb_serial_poll keeper busy (7 ∷ 8 ∷ 9 ∷ [])).0 in
    Moves busy after
    × (after.state ≡ UsbState.active)
    × (after.flags ≡ 1 + length (tx_queue after) * 65536)
usb_serial_poll_example = usb_serial_poll_lem keeper (7 ∷ 8 ∷ 9 ∷ []) refl busy-IsUsb

-- A device with the 255 places of the transmit FIFO, of which nothing is drained.
abbrev full_fifo : Cdc
full_fifo = record recorder {
  write = λ bytes d. (min (length bytes) (255 - length d), d ++ take (255 - length d) bytes);
}

full_fifo-IsSink : IsSink full_fifo (λ d. 255 - length d) (λ d. d)
full_fifo-IsSink = record {
  takes = λ bytes d online. refl;
  keeps = λ bytes d online. refl;
  leaves = λ bytes d online.
      omega
        (arith, length-append d (take (255 - length d) bytes), length-take (255 - length d) bytes);
  stays = λ bytes d online. refl;
  flushes = λ d. refl;
}

-- Five places are left for seven bytes.
abbrev nearly_full : List ℕ
nearly_full = replicate 250 46

abbrev ok_text : List ℕ
ok_text = 79 ∷ 75 ∷ 33 ∷ 10 ∷ []

write_and_pump_example :
    let on = record busy { console_enabled = 1 } in
    let (after, d') =
      pump_tx_to_tinyusb full_fifo
        (usb_serial_write full_fifo ok_text on nearly_full)
        nearly_full in
    (d' ≡ nearly_full ++ (72 ∷ 0 ∷ 0 ∷ 79 ∷ 75 ∷ []))
    × (tx_queue after ≡ [])
    × (rx_queue after ≡ rx_queue on)
    × IsUsb after
unfolding tx_queue contents
write_and_pump_example =
    write_and_pump_lem full_fifo (λ d. 255 - length d) (λ d. d) full_fifo-IsSink ok_text
      {u = record busy { console_enabled = 1 }} nearly_full
      (record { tx = busy-IsUsb.tx; rx = busy-IsUsb.rx }) refl
