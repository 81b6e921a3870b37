-- ===== src/Image/Candidate.antt =====
-- The tests of a footer at one offset (shared/image.c).
use sg2002_kraken.Base.{
  ℕ, ◌+◌, ◌≤◌, ◌<◌, ◌≡◌, sym, ap, ◌∙◌, true, none, some, arith, Option-cases, ◌↔◌, inl, inr,
  bit_xor, subst,
}
use sg2002_kraken.Kraken.Config.{staged_image_magic, staged_image_tail, staged_image_version}
use sg2002_kraken.Kraken.Structs.{Footer}
use sg2002_kraken.Memory.{Mem, load32}
use sg2002_kraken.Image.{
  footer_size, read_footer, footer_ok, load_staged_footer, maybe_staged_footer_tail, try_offset,
}

-- The footer at an offset of a window: it lies inside, its magic words and its version are right,
-- it names the offset as the payload's size, and its two checksums are complements.
pub record IsFooterAt (mem : Mem) (base off max_len : ℕ) (f : Footer) : Type 0 where
  pub bytes : f ≡ read_footer mem (base + off)
  pub inside : off + footer_size ≤ max_len
  pub magic : f.magic ≡ staged_image_magic
  pub version : f.version ≡ staged_image_version
  pub tail : f.tail_magic ≡ staged_image_tail
  pub size : f.payload_size ≡ off
  pub not_empty : 0 < off
  pub crc_inv : bit_xor f.payload_crc32 f.payload_crc32_inv ≡ 0xffffffff

pub footer_ok_lem :
    (off : ℕ) (f : Footer)
    → footer_ok off f ≡ true
    → (f.magic ≡ staged_image_magic)
      × (f.version ≡ staged_image_version)
      × (f.tail_magic ≡ staged_image_tail)
      × (f.payload_size ≡ off)
      × (0 < off)
      × (bit_xor f.payload_crc32 f.payload_crc32_inv ≡ 0xffffffff)
unfolding footer_ok
footer_ok_lem off f h = ground arith

footer_ok_of :
    (off : ℕ) (f : Footer)
    → f.magic ≡ staged_image_magic
    → f.version ≡ staged_image_version
    → f.tail_magic ≡ staged_image_tail
    → f.payload_size ≡ off
    → 0 < off
    → bit_xor f.payload_crc32 f.payload_crc32_inv ≡ 0xffffffff
    → footer_ok off f ≡ true
unfolding footer_ok
footer_ok_of off f a b c d e g = ground arith

load-some :
    (mem : Mem) (base off max_len : ℕ) (f : Footer)
    → load_staged_footer mem base off max_len ≡ some f
    → (f ≡ read_footer mem (base + off))
      × (off + footer_size ≤ max_len)
      × (footer_ok off (read_footer mem (base + off)) ≡ true)
unfolding load_staged_footer
load-some mem base off max_len f h = ground arith

load-of :
    (mem : Mem) (base off max_len : ℕ)
    → off + footer_size ≤ max_len
    → footer_ok off (read_footer mem (base + off)) ≡ true
    → load_staged_footer mem base off max_len ≡ some (read_footer mem (base + off))
unfolding load_staged_footer
load-of mem base off max_len fits good = ground arith

passes_tail :
    (mem : Mem) (base max_len off : ℕ)
    → off + footer_size ≤ max_len
    → load32 mem (base + off + 36) ≡ staged_image_tail
    → try_offset mem base max_len off ≡ load_staged_footer mem base off max_len
unfolding try_offset maybe_staged_footer_tail
passes_tail mem base max_len off fits tail = ground arith

-- `load_staged_footer` returns a footer exactly where one is.
pub load_staged_footer_iff :
    (mem : Mem) (base off max_len : ℕ) (f : Footer)
    → (load_staged_footer mem base off max_len ≡ some f) ↔ IsFooterAt mem base off max_len f
load_staged_footer_iff mem base off max_len f = (found, loads)
  where
    found : load_staged_footer mem base off max_len ≡ some f → IsFooterAt mem base off max_len f
    found h =
        let (e, fits, good) = load-some mem base off max_len f h in
        let t = footer_ok_lem off f (subst (λ g. footer_ok off g ≡ true) (sym e) good) in
        record {
          bytes = e;
          inside = fits;
          magic = t.0;
          version = t.1;
          tail = t.2;
          size = t.3;
          not_empty = t.4;
          crc_inv = t.5;
        }

    loads : IsFooterAt mem base off max_len f → load_staged_footer mem base off max_len ≡ some f
    loads h =
        let good : footer_ok off (read_footer mem (base + off)) ≡ true =
          subst (λ g. footer_ok off g ≡ true) h.bytes
            (footer_ok_of off f h.magic h.version h.tail h.size h.not_empty h.crc_inv) in
        load-of mem base off max_len h.inside good ∙ ap some (sym h.bytes)

-- The filter by tail magic passes every footer, so the scan tries what it would try without it.
pub try_offset_lem :
    (mem : Mem) (base max_len off : ℕ)
    → try_offset mem base max_len off ≡ load_staged_footer mem base off max_len
try_offset_lem mem base max_len off =
    elim (Option-cases (load_staged_footer mem base off max_len)) [
      | inl e ↦ without e
      | inr (f, e) ↦ passes f e ((load_staged_footer_iff mem base off max_len f).0 e)
    ]
  where
    without :
        load_staged_footer mem base off max_len ≡ none
        → try_offset mem base max_len off ≡ load_staged_footer mem base off max_len
    without e = unfold try_offset in ground arith

    tail_of :
        (f : Footer)
        → IsFooterAt mem base off max_len f
        → load32 mem (base + off + 36) ≡ staged_image_tail
    tail_of f h = unfold read_footer in (sym (ap (λ (g : Footer). g.tail_magic) h.bytes) ∙ h.tail)

    passes :
        (f : Footer)
        → load_staged_footer mem base off max_len ≡ some f
        → IsFooterAt mem base off max_len f
        → try_offset mem base max_len off ≡ load_staged_footer mem base off max_len
    passes f e h = rw (passes_tail mem base max_len off h.inside (tail_of f h))
