-- ===== src/Image.antt =====
-- shared/image.c: staged images, an image followed by a footer, in memory.
mod Tests
pub mod Crc
pub mod Candidate
pub mod Find
pub mod Stage
use sg2002_kraken.Base.{
  ℕ, zero, suc, ◌+◌, ◌-◌, Bool, true, false, ◌&&◌, ◌||◌, Option, none, some, ltb, ◌==◌, ◌!=◌,
  if◌then◌else◌, bit_and, bit_xor, u32, ◌>>>◌,
}
use sg2002_kraken.Kraken.Config.{
  staged_image_magic, staged_image_tail, staged_image_version, worker_image_probe_words,
  worker_image_max_bytes,
}
use sg2002_kraken.Kraken.Structs.{Footer}
use sg2002_kraken.Memory.{Mem, write, load32}

-- `sizeof(kraken_staged_image_footer_t)` and `offsetof(..., tail_magic)`
abbrev pub footer_size : ℕ
footer_size = 40

abbrev pub tail_offset : ℕ
tail_offset = 36

-- The footer's fields, as `memcpy` into the struct reads them.
pub read_footer : Mem → ℕ → Footer
read_footer mem a = record {
  magic = load32 mem a;
  version = load32 mem (a + 4);
  image_kind = load32 mem (a + 8);
  flags = load32 mem (a + 12);
  load_addr = load32 mem (a + 16);
  entry_addr = load32 mem (a + 20);
  payload_size = load32 mem (a + 24);
  payload_crc32 = load32 mem (a + 28);
  payload_crc32_inv = load32 mem (a + 32);
  tail_magic = load32 mem (a + 36);
}

-- The tests of `load_staged_footer` on a candidate, in order.
pub footer_ok : ℕ → Footer → Bool
footer_ok off c =
    if c.magic != staged_image_magic
      || c.version != staged_image_version
      || c.tail_magic != staged_image_tail
    then false
    else if c.payload_size == 0 || c.payload_size != off
    then false
    else if bit_xor c.payload_crc32 c.payload_crc32_inv != 0xffffffff
    then false
    else true

-- The footer comes back where the C function returns 1.
pub load_staged_footer : Mem → (base off max_len : ℕ) → Option Footer
load_staged_footer mem base off max_len =
    if ltb max_len off || ltb (max_len - off) footer_size
    then none
    else if footer_ok off (read_footer mem (base + off))
    then some (read_footer mem (base + off))
    else none

pub maybe_staged_footer_tail : Mem → (base off max_len : ℕ) → Bool
maybe_staged_footer_tail mem base off max_len =
    if ltb max_len off || ltb (max_len - off) footer_size
    then false
    else load32 mem (base + off + tail_offset) == staged_image_tail

-- What the compatibility scan tries at one offset.
pub try_offset : Mem → (base max_len off : ℕ) → Option Footer
try_offset mem base max_len off =
    if maybe_staged_footer_tail mem base off max_len
    then load_staged_footer mem base off max_len
    else none

-- The first of two results that is there.
abbrev pub or_else : Option Footer → Option Footer → Option Footer
or_else none o = o
or_else (some f) o = some f

-- The scan from an offset down to 0.
pub scan : Mem → (base max_len off : ℕ) → Option Footer
scan mem base max_len zero = try_offset mem base max_len zero
scan mem base max_len (suc off) = elim (try_offset mem base max_len (suc off)) [
  | some f ↦ some f
  | none ↦ scan mem base max_len off
]

pub sg2002_find_staged_image : Mem → (addr max_len : ℕ) → Option Footer
sg2002_find_staged_image mem addr max_len =
    if ltb max_len footer_size
    then none
    else or_else (load_staged_footer mem addr (max_len - footer_size) max_len)
        (scan mem addr max_len (max_len - footer_size))

-- One of the eight rounds for a bit.
pub crc_bit : ℕ → ℕ
crc_bit crc = if bit_and crc 1 != 0 then bit_xor (crc >>> 1) 0xedb88320 else crc >>> 1

pub crc_bits : ℕ → ℕ → ℕ
crc_bits zero crc = crc
crc_bits (suc n) crc = crc_bits n (crc_bit crc)

pub crc_byte : ℕ → ℕ → ℕ
crc_byte crc byte = crc_bits 8 (bit_xor crc byte)

-- The loop over `len` bytes at an address.
pub crc_from : Mem → (addr len crc : ℕ) → ℕ
crc_from mem addr zero crc = crc
crc_from mem addr (suc len) crc = crc_from mem (addr + 1) len (crc_byte crc (mem addr))

pub sg2002_crc32 : Mem → (addr len : ℕ) → ℕ
sg2002_crc32 mem addr len = bit_xor (crc_from mem addr len 0xffffffff) 0xffffffff

-- What `sg2002_validate_staged_image` asks of a footer that was found; an expected value of 0
-- stands for any.
pub accepts : Mem → (addr kind load entry : ℕ) → Footer → Bool
accepts mem addr kind load entry c =
    if kind != 0 && c.image_kind != kind
    then false
    else if load != 0 && c.load_addr != bit_and load 0xffffffff
    then false
    else if entry != 0 && c.entry_addr != bit_and entry 0xffffffff
    then false
    else sg2002_crc32 mem addr c.payload_size == c.payload_crc32

pub sg2002_validate_staged_image : Mem → (addr max_len kind load entry : ℕ) → Option Footer
sg2002_validate_staged_image mem addr max_len kind load entry =
    elim (sg2002_find_staged_image mem addr max_len) [
      | none ↦ none
      | some c ↦ if accepts mem addr kind load entry c then some c else none
    ]

-- The loop of `sg2002_copy_image` at `n`, with `left` bytes to go: the memory and the count. The
-- cache flushes change no byte.
pub copy_from : (dst src left n : ℕ) → Mem → ℕ × Mem
copy_from dst src zero n mem = (n, mem)
copy_from dst src (suc left) n mem =
    copy_from dst src left (n + 1) (write (dst + n) (mem (src + n)) mem)

pub sg2002_copy_image : (dst src len : ℕ) → Mem → ℕ × Mem
sg2002_copy_image dst src len mem = copy_from dst src len 0 mem

-- The words of the probe, counted: those that are not 0, and those that are all ones.
pub probe : Mem → (addr words : ℕ) → ℕ × ℕ
probe mem addr zero = (0, 0)
probe mem addr (suc n) =
    let v = load32 mem addr in
    let (nonzero, all_ones) = probe mem (addr + 4) n in
    (if v != 0 then nonzero + 1 else nonzero, if v == 0xffffffff then all_ones + 1 else all_ones)

pub sg2002_image_present : Mem → ℕ → Bool
sg2002_image_present mem addr =
    elim (sg2002_find_staged_image mem addr (worker_image_max_bytes + footer_size)) [
      | some f ↦ true
      | none ↦
          let (nonzero, all_ones) = probe mem addr worker_image_probe_words in
          nonzero != 0 && all_ones != worker_image_probe_words
    ]
