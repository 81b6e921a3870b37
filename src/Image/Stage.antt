-- ===== src/Image/Stage.antt =====
-- Validating and copying a staged image (shared/image.c).
use sg2002_kraken.Base.{
  ℕ, zero, suc, ◌+◌, ◌-◌, if◌then◌else◌, ◌%◌, ◌^◌, ◌≤◌, ◌<◌, ◌≡◌, ◌⊎◌, ◌↔◌, refl, sym, ap, ◌∙◌,
  true, some, arith, inr, bit_xor, bit_and_mask, bit_ext, bit-bit_xor, bit-le,
}
use sg2002_kraken.Kraken.Config.{staged_image_magic, staged_image_tail, staged_image_version}
use sg2002_kraken.Kraken.Structs.{Footer}
use sg2002_kraken.Memory.{Mem, write, sg2002_memcpy}
use sg2002_kraken.Memory.Laws.{CopiesForward, inside, sg2002_memcpy_lem}
use sg2002_kraken.Image.{
  footer_size, read_footer, sg2002_find_staged_image, sg2002_crc32, accepts,
  sg2002_validate_staged_image, copy_from, sg2002_copy_image,
}
use sg2002_kraken.Image.Candidate.{IsFooterAt}
use sg2002_kraken.Image.Find.{sg2002_find_staged_image_iff}

-- What the caller asked for: 0 stands for any value.
abbrev pub Matches : ℕ → ℕ → Type 0
Matches expected x = (expected ≡ 0) ⊎ (x ≡ expected % 2 ^ 32)

-- A validated image: a footer that the search finds, of the kind and at the addresses that were
-- asked for, whose checksum is that of the payload.
pub record IsValidated (mem : Mem) (addr max_len kind load entry : ℕ) (f : Footer) : Type 0 where
  pub found : sg2002_find_staged_image mem addr max_len ≡ some f
  pub of_kind : (kind ≡ 0) ⊎ (f.image_kind ≡ kind)
  pub of_load : Matches load f.load_addr
  pub of_entry : Matches entry f.entry_addr
  pub crc : sg2002_crc32 mem addr f.payload_size ≡ f.payload_crc32

accepts-inv :
    (mem : Mem) (addr kind load entry : ℕ) (f : Footer)
    → accepts mem addr kind load entry f ≡ true
    → ((kind ≡ 0) ⊎ (f.image_kind ≡ kind))
      × Matches load f.load_addr
      × Matches entry f.entry_addr
      × (sg2002_crc32 mem addr f.payload_size ≡ f.payload_crc32)
unfolding accepts
accepts-inv mem addr kind load entry f h =
    ground (arith, bit_and_mask 32 load, bit_and_mask 32 entry)

accepts-of :
    (mem : Mem) (addr kind load entry : ℕ) (f : Footer)
    → (kind ≡ 0) ⊎ (f.image_kind ≡ kind)
    → Matches load f.load_addr
    → Matches entry f.entry_addr
    → sg2002_crc32 mem addr f.payload_size ≡ f.payload_crc32
    → accepts mem addr kind load entry f ≡ true
unfolding accepts
accepts-of mem addr kind load entry f k l e c =
    ground (arith, bit_and_mask 32 load, bit_and_mask 32 entry)

validate-inv :
    (mem : Mem) (addr max_len kind load entry : ℕ) (f : Footer)
    → sg2002_validate_staged_image mem addr max_len kind load entry ≡ some f
    → (sg2002_find_staged_image mem addr max_len ≡ some f)
      × (accepts mem addr kind load entry f ≡ true)
unfolding sg2002_validate_staged_image
validate-inv mem addr max_len kind load entry f h = ground arith

validate-of :
    (mem : Mem) (addr max_len kind load entry : ℕ) (f : Footer)
    → sg2002_find_staged_image mem addr max_len ≡ some f
    → accepts mem addr kind load entry f ≡ true
    → sg2002_validate_staged_image mem addr max_len kind load entry ≡ some f
unfolding sg2002_validate_staged_image
validate-of mem addr max_len kind load entry f found good = ground arith

-- Validation accepts exactly the footers that the search finds, of the kind and at the addresses
-- asked for (0 stands for any), whose checksum is that of the payload.
pub sg2002_validate_staged_image_iff :
    (mem : Mem) (addr max_len kind load entry : ℕ) (f : Footer)
    → (sg2002_validate_staged_image mem addr max_len kind load entry ≡ some f)
      ↔ IsValidated mem addr max_len kind load entry f
sg2002_validate_staged_image_iff mem addr max_len kind load entry f = (accepted, accept)
  where
    accepted :
        sg2002_validate_staged_image mem addr max_len kind load entry ≡ some f
        → IsValidated mem addr max_len kind load entry f
    accepted h =
        let (found, good) = validate-inv mem addr max_len kind load entry f h in
        let t = accepts-inv mem addr kind load entry f good in
        record { found = found; of_kind = t.0; of_load = t.1; of_entry = t.2; crc = t.3 }

    accept :
        IsValidated mem addr max_len kind load entry f
        → sg2002_validate_staged_image mem addr max_len kind load entry ≡ some f
    accept v =
        validate-of mem addr max_len kind load entry f v.found
          (accepts-of mem addr kind load entry f v.of_kind v.of_load v.of_entry v.crc)

-- The footer that `make_staged_image` of tools/package_images.py packs behind a payload of a size
-- and with a checksum (of binascii.crc32, which is not part of the repository).
unfoldable pub staged_footer : (crc size kind load entry : ℕ) → Footer
staged_footer crc size kind load entry = record {
  magic = staged_image_magic;
  version = staged_image_version;
  image_kind = kind;
  flags = 0;
  load_addr = load;
  entry_addr = entry;
  payload_size = size;
  payload_crc32 = crc;
  payload_crc32_inv = bit_xor crc 0xffffffff;
  tail_magic = staged_image_tail;
}

xor_inverse : (a m : ℕ) → bit_xor a (bit_xor a m) ≡ m
xor_inverse a m =
    bit_ext _ _
      λ k. omega (arith, bit-bit_xor k a (bit_xor a m), bit-bit_xor k a m, bit-le k a, bit-le k m)

-- A payload that is not empty and fits the window, with the packaging tool's footer behind it, is
-- accepted with that footer, if the tool's checksum is the firmware's, the addresses are 32-bit
-- words and nothing further on in the window is a footer.
pub staged_image_validates :
    (mem : Mem) (addr size max_len crc kind load entry : ℕ)
    → crc ≡ sg2002_crc32 mem addr size
    → 0 < size
    → size + footer_size ≤ max_len
    → load < 2 ^ 32
    → entry < 2 ^ 32
    → read_footer mem (addr + size) ≡ staged_footer crc size kind load entry
    → ((k : ℕ) (g : Footer) → size < k → ¬ IsFooterAt mem addr k max_len g)
    → sg2002_validate_staged_image mem addr max_len kind load entry
      ≡ some (staged_footer crc size kind load entry)
unfolding staged_footer
staged_image_validates mem addr size max_len crc kind load entry agrees pos fits hl he written
      alone =
    (sg2002_validate_staged_image_iff mem addr max_len kind load entry _).1 (record {
      found = (sg2002_find_staged_image_iff mem addr max_len _).1 (
        record {
          bytes = sym written;
          inside = fits;
          magic = refl;
          version = refl;
          tail = refl;
          size = refl;
          not_empty = pos;
          crc_inv = xor_inverse _ 0xffffffff;
        },
        alone,
      );
      of_kind = inr refl;
      of_load = inr (omega arith);
      of_entry = inr (omega arith);
      crc = sym agrees;
    })

copy_from-eq-memcpy :
    (dst src left n : ℕ) (mem : Mem)
    → copy_from dst src left n mem ≡ (n + left, sg2002_memcpy (dst + n) (src + n) left mem)
unfolding copy_from sg2002_memcpy
copy_from-eq-memcpy dst src zero n mem = ap (λ (k : ℕ). (k, mem)) {y = n + 0} (omega arith)
copy_from-eq-memcpy dst src (suc left) n mem =
    copy_from-eq-memcpy dst src left (n + 1) (write (dst + n) (mem (src + n)) mem) ∙ aligned
  where
    after : Mem
    after = write (dst + n) (mem (src + n)) mem

    count : n + 1 + left ≡ n + suc left
    count = omega arith

    to : dst + (n + 1) ≡ dst + n + 1
    to = omega arith

    from : src + (n + 1) ≡ src + n + 1
    from = omega arith

    aligned :
        ◌≡◌ {A = ℕ × Mem}
          (n + 1 + left, sg2002_memcpy (dst + (n + 1)) (src + (n + 1)) left after)
          (n + suc left, sg2002_memcpy (dst + n + 1) (src + n + 1) left after)
    aligned = λ i. (count i, sg2002_memcpy (to i) (from i) left after)

sg2002_copy_image-eq-memcpy :
    (dst src len : ℕ) (mem : Mem)
    → sg2002_copy_image dst src len mem ≡ (len, sg2002_memcpy dst src len mem)
unfolding sg2002_copy_image
sg2002_copy_image-eq-memcpy dst src len mem = copy_from-eq-memcpy dst src len 0 mem ∙ at_start
  where
    count : 0 + len ≡ len
    count = omega arith

    to : dst + 0 ≡ dst
    to = omega arith

    from : src + 0 ≡ src
    from = omega arith

    at_start :
        ◌≡◌ {A = ℕ × Mem}
          (0 + len, sg2002_memcpy (dst + 0) (src + 0) len mem)
          (len, sg2002_memcpy dst src len mem)
    at_start = λ i. (count i, sg2002_memcpy (to i) (from i) len mem)

-- Copying an image reports the whole length, puts the source's bytes, as they were, at the
-- destination and changes no other byte, where the areas do not overlap or the destination is
-- lower.
sg2002_copy_image_lem :
    (dst src len : ℕ) (mem : Mem) (x : ℕ)
    → CopiesForward dst src len
    → let (copied, after) = sg2002_copy_image dst src len mem in
      (copied ≡ len) × (after x ≡ (if inside dst len x then mem (src + (x - dst)) else mem x))
sg2002_copy_image_lem dst src len mem x h =
    rw (sg2002_copy_image-eq-memcpy dst src len mem) (refl, sg2002_memcpy_lem dst src len mem x h)
