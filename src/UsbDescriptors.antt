-- ===== src/UsbDescriptors.antt =====
-- shared/usb_descriptors.c: the descriptors that the USB stack asks for. The buffer of the string
-- descriptors, `s_desc_string`, is a list of its 32 units.
mod Tests
pub mod Blocks
pub mod Text
use Prim.Native.String.{String}
use sg2002_kraken.Base.{
  ℕ, zero, suc, ◌+◌, ◌*◌, List, [], ◌∷◌, ltb, ◌==◌, ◌!=◌, ◌&&◌, if◌then◌else◌, set, set_bits, u8,
  u16, ◌<<<◌,
}
use sg2002_kraken.Console.{codes}

abbrev pub usb_desc_string : ℕ
usb_desc_string = 0x03

pub s_desc_device : List ℕ
s_desc_device =
    18 ∷ 0x01 ∷ 0x10 ∷ 0x02 ∷ 0xEF ∷ 0x02 ∷ 0x01 ∷ 64 ∷ 0xB1 ∷ 0x30 ∷ 0x03 ∷ 0x10 ∷ 0x00 ∷ 0x01
    ∷ 0x01 ∷ 0x02 ∷ 0x03 ∷ 0x01 ∷ []

pub s_desc_config : List ℕ
s_desc_config =
    9 ∷ 0x02 ∷ 67 ∷ 0 ∷ 2 ∷ 1 ∷ 0 ∷ 0x80 ∷ 50 ∷ 8 ∷ 0x0B ∷ 0 ∷ 2 ∷ 0x02 ∷ 0x02 ∷ 0x01 ∷ 0 ∷ 9 ∷ 0x04
    ∷ 0 ∷ 0 ∷ 1 ∷ 0x02 ∷ 0x02 ∷ 0x01 ∷ 0 ∷ 5 ∷ 0x24 ∷ 0x00 ∷ 0x10 ∷ 0x01 ∷ 4 ∷ 0x24 ∷ 0x02 ∷ 0x02
    ∷ 5 ∷ 0x24 ∷ 0x06 ∷ 0x00 ∷ 0x01 ∷ 5 ∷ 0x24 ∷ 0x01 ∷ 0x03 ∷ 0x01 ∷ 7 ∷ 0x05 ∷ 0x81 ∷ 0x03 ∷ 8 ∷ 0
    ∷ 16 ∷ 9 ∷ 0x04 ∷ 1 ∷ 0 ∷ 2 ∷ 0x0A ∷ 0x00 ∷ 0x00 ∷ 0 ∷ 7 ∷ 0x05 ∷ 0x02 ∷ 0x02 ∷ 64 ∷ 0 ∷ 0 ∷ 7
    ∷ 0x05 ∷ 0x82 ∷ 0x02 ∷ 64 ∷ 0 ∷ 0 ∷ []

-- The loop of `ascii_to_utf16` from the place `len` on: the place where it ends, and the buffer.
pub copy_units : (s : List ℕ) (len : ℕ) → List ℕ → ℕ × List ℕ
copy_units [] len buf = (len, buf)
copy_units (c ∷ cs) len buf =
    let rest = copy_units cs (len + 1) (set buf (1 + len) (u8 c)) in
    if c != 0 && ltb len 31 then rest else (len, buf)

pub ascii_to_utf16 : (s : List ℕ) → List ℕ → List ℕ
unfolding copy_units
ascii_to_utf16 s buf =
    let (len, filled) = copy_units s 0 buf in
    set filled 0 (u16 (set_bits (usb_desc_string <<< 8) (2 + len * 2)))

pub tud_descriptor_device_cb : List ℕ
tud_descriptor_device_cb = s_desc_device

pub tud_descriptor_configuration_cb : (index : ℕ) → List ℕ
tud_descriptor_configuration_cb index = s_desc_config

-- The text of a string descriptor but the one of index 0.
abbrev pub string_text : (index : ℕ) → String
string_text index =
    if index == 1
    then "Night Traders Dev"
    else if index == 2
    then "Kraken USB Console"
    else if index == 3
    then "SG2002-CDC-0001"
    else "Kraken"

pub tud_descriptor_string_cb : (index langid : ℕ) → List ℕ → List ℕ
unfolding ascii_to_utf16
tud_descriptor_string_cb index langid buf =
    if index == 0
    then set (set buf 0 (u16 (set_bits (usb_desc_string <<< 8) 4))) 1 0x0409
    else ascii_to_utf16 (codes (string_text index)) buf
