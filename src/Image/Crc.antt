-- ===== src/Image/Crc.antt =====
-- The checksum of an image, `sg2002_crc32` of shared/image.c.
use sg2002_kraken.Base.{
  ℕ, zero, suc, ◌+◌, ◌/◌, ◌^◌, ◌≤◌, ◌<◌, ◌≡◌, ◌≢◌, sym, ap, ◌∙◌, arith, bit_xor, bit-bit_xor,
  bit_and_mask, bit_xor-lt, bit_xor-cancel, bit_xor_comm, bit-eq, ℕ_discrete,
}
use sg2002_kraken.Memory.{Mem}
use sg2002_kraken.Image.{crc_bit, crc_bits, crc_byte, crc_from, sg2002_crc32}

abbrev pub IsWord : ℕ → Type 0
IsWord x = x < 2 ^ 32

crc_bit-IsWord : (c : ℕ) → IsWord c → IsWord (crc_bit c)
unfolding crc_bit
crc_bit-IsWord c h = ground (arith, bit_xor-lt 32 (c / 2) 0xedb88320 (omega arith))

crc_bits-IsWord : (n c : ℕ) → IsWord c → IsWord (crc_bits n c)
unfolding crc_bits
crc_bits-IsWord zero c h = h
crc_bits-IsWord (suc n) c h = crc_bits-IsWord n (crc_bit c) (crc_bit-IsWord c h)

-- The polynomial has bit 31, which a shifted word has not: so a round can be undone.
crc_bit-injective : (c d : ℕ) → IsWord c → IsWord d → crc_bit c ≡ crc_bit d → c ≡ d
unfolding crc_bit
crc_bit-injective c d hc hd e = ground (
  arith,
  bit_and_mask 1 c,
  bit_and_mask 1 d,
  high_poly (c / 2),
  high_poly (d / 2),
  bit_xor-cancel (c / 2) (d / 2) 0xedb88320,
)
  where
    high_poly : (x : ℕ) → x < 2 ^ 31 → 2 ^ 31 ≤ bit_xor x 0xedb88320
    high_poly x h = omega (
      arith,
      bit-bit_xor 31 x 0xedb88320,
      bit-eq 31 x,
      bit-eq 31 0xedb88320,
      bit-eq 31 (bit_xor x 0xedb88320),
    )

crc_bits-injective : (n c d : ℕ) → IsWord c → IsWord d → crc_bits n c ≡ crc_bits n d → c ≡ d
unfolding crc_bits
crc_bits-injective zero c d hc hd e = e
crc_bits-injective (suc n) c d hc hd e =
    crc_bit-injective c d hc hd
      (crc_bits-injective n (crc_bit c) (crc_bit d) (crc_bit-IsWord c hc) (crc_bit-IsWord d hd) e)

crc_byte-IsWord : (c b : ℕ) → IsWord c → b < 256 → IsWord (crc_byte c b)
unfolding crc_byte
crc_byte-IsWord c b h hb = crc_bits-IsWord 8 (bit_xor c b) (bit_xor-lt 32 c b h (omega arith))

-- With equal bytes, different registers stay different; with equal registers, different bytes
-- make them different.
crc_byte-injective :
    (c d b : ℕ) → IsWord c → IsWord d → b < 256 → crc_byte c b ≡ crc_byte d b → c ≡ d
unfolding crc_byte
crc_byte-injective c d b hc hd hb e = bit_xor-cancel c d b (
    crc_bits-injective 8 (bit_xor c b) (bit_xor d b) (bit_xor-lt 32 c b hc (omega arith))
      (bit_xor-lt 32 d b hd (omega arith)) e)

crc_byte-injective_byte :
    (c a b : ℕ) → IsWord c → a < 256 → b < 256 → crc_byte c a ≡ crc_byte c b → a ≡ b
unfolding crc_byte
crc_byte-injective_byte c a b hc ha hb e = bit_xor-cancel a b c (
    bit_xor_comm a c
    ∙ crc_bits-injective 8 (bit_xor c a) (bit_xor c b) (bit_xor-lt 32 c a hc (omega arith))
        (bit_xor-lt 32 c b hc (omega arith)) e
    ∙ bit_xor_comm c b)

-- Every cell of the memory holds a byte.
abbrev pub IsBytes : Mem → Type 0
IsBytes mem = (x : ℕ) → mem x < 256

crc_from-IsWord :
    (mem : Mem) (addr len c : ℕ) → IsBytes mem → IsWord c → IsWord (crc_from mem addr len c)
unfolding crc_from
crc_from-IsWord mem addr zero c hm h = h
crc_from-IsWord mem addr (suc len) c hm h =
    crc_from-IsWord mem (addr + 1) len _ hm (crc_byte-IsWord c (mem addr) h (hm addr))

-- The checksum of a memory of bytes fits 32 bits.
sg2002_crc32-lt : (mem : Mem) (addr len : ℕ) → IsBytes mem → sg2002_crc32 mem addr len < 2 ^ 32
unfolding sg2002_crc32
sg2002_crc32-lt mem addr len h =
    bit_xor-lt 32 (crc_from mem addr len 0xffffffff) 0xffffffff
      (crc_from-IsWord mem addr len 0xffffffff h (omega arith)) (omega arith)

-- On the same bytes, different registers end different.
crc_from-injective :
    (m n : Mem) (addr len c d : ℕ)
    → IsBytes m
    → IsBytes n
    → IsWord c
    → IsWord d
    → ((x : ℕ) → addr ≤ x → x < addr + len → m x ≡ n x)
    → crc_from m addr len c ≡ crc_from n addr len d
    → c ≡ d
unfolding crc_from
crc_from-injective m n addr zero c d hm hn hc hd same e = e
crc_from-injective m n addr (suc len) c d hm hn hc hd same e =
    crc_byte-injective c d (m addr) hc hd (hm addr) (
      crc_from-injective m n (addr + 1) len (crc_byte c (m addr)) (crc_byte d (n addr)) hm hn
        (crc_byte-IsWord c (m addr) hc (hm addr)) (crc_byte-IsWord d (n addr) hd (hn addr))
        (λ x ge lt. same x (omega arith) (omega arith)) e
      ∙ ap (crc_byte d) (sym (same addr (omega arith) (omega arith))))

-- Two areas that differ at one place only.
crc_from_one_byte :
    (m n : Mem) (addr len at c : ℕ)
    → IsBytes m
    → IsBytes n
    → IsWord c
    → addr ≤ at
    → at < addr + len
    → m at ≢ n at
    → ((x : ℕ) → x ≢ at → m x ≡ n x)
    → crc_from m addr len c ≢ crc_from n addr len c
unfolding crc_from
crc_from_one_byte m n addr zero at c hm hn hc ge lt ne same e = absurd (omega arith)
crc_from_one_byte m n addr (suc len) at c hm hn hc ge lt ne same e = elim (ℕ_discrete addr at) [
  | yes p ↦ ne (
      ap m (sym p)
      ∙ crc_byte-injective_byte c (m addr) (n addr) hc (hm addr) (hn addr) (
          crc_from-injective m n (addr + 1) len (crc_byte c (m addr)) (crc_byte c (n addr)) hm hn
            (crc_byte-IsWord c (m addr) hc (hm addr)) (crc_byte-IsWord c (n addr) hc (hn addr))
            (λ x ge' lt'. same x (omega arith)) e)
      ∙ ap n p)
  | no p ↦
      crc_from_one_byte m n (addr + 1) len at (crc_byte c (m addr)) hm hn
        (crc_byte-IsWord c (m addr) hc (hm addr)) (omega arith) (omega arith) ne same
        (e ∙ ap (λ b. crc_from n (addr + 1) len (crc_byte c b)) (sym (same addr p)))
]

-- Two memories of bytes that differ at exactly one address of the area have different checksums
-- over it.
pub sg2002_crc32_one_byte :
    (m n : Mem) (addr len at : ℕ)
    → IsBytes m
    → IsBytes n
    → addr ≤ at
    → at < addr + len
    → m at ≢ n at
    → ((x : ℕ) → x ≢ at → m x ≡ n x)
    → sg2002_crc32 m addr len ≢ sg2002_crc32 n addr len
unfolding sg2002_crc32
sg2002_crc32_one_byte m n addr len at hm hn ge lt ne same e =
    crc_from_one_byte m n addr len at 0xffffffff hm hn (omega arith) ge lt ne same
      (bit_xor-cancel _ _ 0xffffffff e)
