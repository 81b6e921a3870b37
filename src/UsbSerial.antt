-- ===== src/UsbSerial.antt =====
-- The USB console of shared/usb_serial.c, over the rings of the control page. The CDC device behind
-- it (`tud_*` of third_party/tinyusb) is the parameter `cdc` of the functions that call it.
mod Tests
pub mod Ring
pub mod Queue
pub mod Calls
pub mod Pump
pub mod Store
pub mod Receive
pub mod Poll
pub mod Through
pub mod Write
use sg2002_kraken.Base.{
  ℕ, zero, suc, ◌+◌, ◌-◌, Bool, true, false, List, [], ◌∷◌, ◌&&◌, leb, ◌==◌, ◌!=◌, if◌then◌else◌,
  bit_and, bit_or, u8, u32, ◌<<<◌, set_bits, length, get_or, set,
}
use sg2002_kraken.Kraken.Config.{usb_serial_ring_size, usb_serial_proto_acm}
use sg2002_kraken.Kraken.UsbState
use sg2002_kraken.Kraken.SysFlag
use sg2002_kraken.Kraken.PlatErr
use sg2002_kraken.Kraken.Structs.{UsbCtrl, SharedCtrl}
use sg2002_kraken.Ctl.{ctl_set_platform_error, ctl_clear_platform_error}

-- What the device stack calls back while its task runs.
pub data Callback : Type 0 where
  mount umount suspend resume rx : Callback
  line_state : Bool → Callback

-- The CDC device: `tusb_init`, `tud_inited`, `tud_task` with the callbacks that it makes,
-- `tud_cdc_n_connected`, `_available`, `_read`, `_write` and `_write_flush`, each for interface 0.
pub record Cdc : Type 1 where
  pub Device : Type 0
  pub start : Device → Bool × Device
  pub inited : Device → Bool
  pub task : Device → List Callback × Device
  pub connected : Device → Bool
  pub available : Device → ℕ
  pub read : ℕ → Device → List ℕ × Device
  pub write : List ℕ → Device → ℕ × Device
  pub write_flush : Device → Device

pub ring_next : ℕ → ℕ
ring_next idx = bit_and (u32 (idx + 1)) (usb_serial_ring_size - 1)

pub tx_ring_used : UsbCtrl → ℕ
tx_ring_used u =
    if leb u.tx_tail u.tx_head
    then u.tx_head - u.tx_tail
    else usb_serial_ring_size - (u.tx_tail - u.tx_head)

pub rx_ring_free : UsbCtrl → ℕ
rx_ring_free u =
    let used =
      if leb u.rx_tail u.rx_head
      then u.rx_head - u.rx_tail
      else usb_serial_ring_size - (u.rx_tail - u.rx_head) in
    usb_serial_ring_size - 1 - used

-- The loop of `usb_serial_write`.
pub write_bytes : List ℕ → UsbCtrl → UsbCtrl
write_bytes [] u = u
write_bytes (b ∷ bs) u =
    let next = ring_next u.tx_head in
    let rest =
      write_bytes bs (record u { tx_ring = set u.tx_ring u.tx_head (u8 b); tx_head = next }) in
    if next == u.tx_tail then u else rest

-- The loop of `usb_serial_read`, for a buffer of `len` bytes.
pub usb_serial_read : ℕ → UsbCtrl → List ℕ × UsbCtrl
usb_serial_read zero u = ([], u)
usb_serial_read (suc len) u =
    let rest = usb_serial_read len (record u { rx_tail = ring_next u.rx_tail }) in
    if u.rx_tail == u.rx_head then ([], u) else (get_or u.rx_ring u.rx_tail 0 ∷ rest.0, rest.1)

-- The inner loop of `pump_tx_to_tinyusb`: the chunk, of `room` bytes at most.
pub tx_chunk : ℕ → UsbCtrl → List ℕ × UsbCtrl
tx_chunk zero u = ([], u)
tx_chunk (suc room) u =
    let rest = tx_chunk room (record u { tx_tail = ring_next u.tx_tail }) in
    if u.tx_tail == u.tx_head then ([], u) else (get_or u.tx_ring u.tx_tail 0 ∷ rest.0, rest.1)

-- The inner loop of `pump_rx_from_tinyusb`: the bytes behind a full ring are lost.
pub store_rx : List ℕ → UsbCtrl → UsbCtrl
store_rx [] u = u
store_rx (b ∷ bs) u =
    let next = ring_next u.rx_head in
    let rest = store_rx bs (record u { rx_ring = set u.rx_ring u.rx_head b; rx_head = next }) in
    if next == u.rx_tail then u else rest

abbrev pub chunk_size : ℕ
chunk_size = 32

pub usb_serial_set_state : (state error_code : ℕ) → UsbCtrl → UsbCtrl
usb_serial_set_state state error_code u = record u { state = state; last_error = error_code }

pub tud_cdc_line_state_cb : Bool → UsbCtrl → UsbCtrl
tud_cdc_line_state_cb dtr u =
    if dtr
    then usb_serial_set_state UsbState.active 0 u
    else usb_serial_set_state UsbState.ready 0 (record u { tx_head = u.tx_tail })

-- The callbacks of the device stack.
pub on_callback : Callback → UsbCtrl → UsbCtrl
on_callback mount u = usb_serial_set_state UsbState.active 0 u
on_callback umount u = usb_serial_set_state UsbState.ready 0 u
on_callback suspend u = u
on_callback resume u = u
on_callback rx u = u
on_callback (line_state dtr) u = tud_cdc_line_state_cb dtr u

pub on_callbacks : List Callback → UsbCtrl → UsbCtrl
on_callbacks [] u = u
on_callbacks (c ∷ cs) u = on_callbacks cs (on_callback c u)

module _ (cdc : Cdc) where
  open cdc use {Device, start, inited, task, connected, available, read, write, write_flush}

  -- The outer loop of `pump_tx_to_tinyusb`, and the flush behind it. The fuel bounds the rounds.
  pub pump_tx_from : ℕ → UsbCtrl → Device → UsbCtrl × Device
  pump_tx_from zero u d = (u, write_flush d)
  pump_tx_from (suc fuel) u d =
      let (chunk, u') = tx_chunk chunk_size u in
      let (n, d') = write chunk d in
      let rest = pump_tx_from fuel u' d' in
      if u.tx_tail == u.tx_head
      then (u, write_flush d)
      else if n != length chunk
      then (u', write_flush (write_flush d'))
      else rest

  -- A round takes a byte at least, so no more rounds than bytes are needed.
  pub pump_tx_to_tinyusb : UsbCtrl → Device → UsbCtrl × Device
  pump_tx_to_tinyusb u d = if connected d then pump_tx_from usb_serial_ring_size u d else (u, d)

  -- The outer loop of `pump_rx_from_tinyusb`; a round takes up a free place at least.
  pub pump_rx_from : ℕ → UsbCtrl → Device → UsbCtrl × Device
  pump_rx_from zero u d = (u, d)
  pump_rx_from (suc fuel) u d =
      let (chunk, d') = read chunk_size d in
      let rest = pump_rx_from fuel (store_rx chunk u) d' in
      if available d != 0 && rx_ring_free u != 0
      then if length chunk == 0 then (u, d') else rest
      else (u, d)

  pub pump_rx_from_tinyusb : UsbCtrl → Device → UsbCtrl × Device
  pump_rx_from_tinyusb u d = pump_rx_from usb_serial_ring_size u d

  pub usb_serial_poll : UsbCtrl → Device → UsbCtrl × Device
  usb_serial_poll u d =
      let (calls, d₁) = task d in
      let (u₂, d₂) = pump_rx_from_tinyusb (on_callbacks calls u) d₁ in
      let (u₃, d₃) = pump_tx_to_tinyusb u₂ d₂ in
      if inited d
      then (
        record u₃ {
          state = if connected d₃ then UsbState.active else UsbState.ready;
          flags = bit_or usb_serial_proto_acm (u32 (bit_and (tx_ring_used u₃) 0xffff <<< 16));
        },
        d₃,
      )
      else (u, d)

  pub usb_serial_write : List ℕ → UsbCtrl → Device → UsbCtrl
  usb_serial_write buf u d =
      if u.console_enabled == 0 then u else if connected d then write_bytes buf u else u

  unfoldable pub usb_serial_init : SharedCtrl → Device → SharedCtrl × Device
  usb_serial_init ctl d =
      let fresh = record (ctl.usb) {
        state = UsbState.init;
        flags = usb_serial_proto_acm;
        rx_head = 0;
        rx_tail = 0;
        tx_head = 0;
        tx_tail = 0;
        last_error = 0;
      } in
      let (started, d') = start d in
      if started
      then (
        ctl_clear_platform_error PlatErr.usb_init_failed
            (record ctl { usb = record fresh { state = UsbState.ready } }),
        d',
      )
      else let failed = ctl_set_platform_error PlatErr.usb_init_failed (record ctl {
        usb = fresh;
        system_flags = set_bits ctl.system_flags SysFlag.usb_fault;
      }) in
        (record failed { usb = usb_serial_set_state UsbState.error 0x54555342 failed.usb }, d')
