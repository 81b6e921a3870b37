-- ===== src/UsbDescriptors/Text.antt =====
-- shared/usb_descriptors.c: what a host reads of a string descriptor.
use mathlib.Core.List.{append_assoc, append-nil}
use sg2002_kraken.Base.{
  ℕ, zero, suc, ◌+◌, ◌-◌, ◌*◌, ◌/◌, ◌%◌, ◌^◌, ◌≤◌, ◌<◌, ◌≡◌, refl, ap, sym, ◌∙◌, List, [], ◌∷◌,
  ◌++◌, Option, none, some, min, arith, ltb, ◌==◌, ◌!=◌, ◌&&◌, if◌then◌else◌, length, set, take,
  drop, length-set, length-take, take-set_end, Bool-cases, inl, inr, true, false, bit_or,
  bit_or_comm, bit_or_high, set_bits, u16, ◌<<<◌,
}
use sg2002_kraken.Console.{codes}
use sg2002_kraken.UsbDescriptors.{
  usb_desc_string, copy_units, ascii_to_utf16, string_text, tud_descriptor_string_cb,
}

-- A string descriptor as the USB specification has it: the length in bytes and the type 3 in the
-- first unit, then the units of the text.
pub read_string : List ℕ → Option (List ℕ)
read_string [] = none
read_string (header ∷ units) =
    if header / 256 == 3 && header % 256 % 2 == 0
    then some (take (header % 256 / 2 - 1) units)
    else none

-- Characters of ASCII, with no NUL.
abbrev pub AllChars : List ℕ → Type 0
AllChars [] = Unit
AllChars (c ∷ cs) = (0 < c) × (c < 256) × AllChars cs

take-nil : (n : ℕ) → take {A = ℕ} n [] ≡ []
take-nil zero = refl
take-nil (suc n) = refl

copy_units_lem :
    (s : List ℕ) (len : ℕ) (buf : List ℕ)
    → AllChars s
    → len ≤ 31
    → length buf ≡ 32
    → let (len', buf') = copy_units s len buf in
      (len' ≡ len + min (31 - len) (length s))
      × (take (1 + len') buf' ≡ take (1 + len) buf ++ take (31 - len) s)
      × (length buf' ≡ 32)
unfolding copy_units
copy_units_lem [] len buf h low full = (
  omega arith,
  sym (append-nil _) ∙ ap (λ l. take (1 + len) buf ++ l) (sym (take-nil (31 - len))),
  full,
)
copy_units_lem (c ∷ cs) len buf h low full = elim (Bool-cases (ltb len 31)) [
  | inl e ↦
      let more : (c != 0 && ltb len 31) ≡ true = ground (arith, h.0, e) in
      let ih =
        copy_units_lem cs (len + 1) (set buf (1 + len) (c % 256)) h.2 (ground arith)
          (length-set buf (1 + len) (c % 256) ∙ full) in
      let room : len < 31 = ground (arith, e) in
      rw more (
        omega (arith, ih.0),
        ih.1
            ∙ ap (λ l. l ++ take (31 - (len + 1)) cs)
                (ap (λ n. take n (set buf (1 + len) (c % 256))) {y = suc (1 + len)} (omega arith)
                  ∙ take-set_end (1 + len) buf (c % 256) (omega (arith, full)))
            ∙ append_assoc (take (1 + len) buf) (c % 256 ∷ []) (take (31 - (len + 1)) cs)
            ∙ ap (λ l. take (1 + len) buf ++ l)
                (ap (λ x. x ∷ take (31 - (len + 1)) cs) {y = c} (omega (arith, h.1))
                  ∙ ap (λ n. take n (c ∷ cs)) {x = suc (31 - (len + 1))} {y = 31 - len}
                      (omega arith)),
        ih.2,
      )
  | inr e ↦
      let ends : (c != 0 && ltb len 31) ≡ false = ground (arith, e) in
      rw ends (
        ground arith,
        sym (append-nil _)
            ∙ ap (λ n. take (1 + len) buf ++ take n (c ∷ cs)) {x = 0} {y = 31 - len} (ground arith),
        full,
      )
]

header_lem :
    (n : ℕ) → n ≤ 31 → u16 (set_bits (usb_desc_string <<< 8) (2 + n * 2)) ≡ 768 + (2 + n * 2)
header_lem n h =
    ap u16 (
      bit_or_comm 768 (2 + n * 2)
      ∙ ap (λ x. bit_or x 768) {y = 0 * 2 ^ 8 + (2 + n * 2)} (omega arith)
      ∙ bit_or_high 8 0 (2 + n * 2) 3 (omega arith))
    ∙ omega arith

-- A descriptor with its header in place is read back.
read_string-set :
    (n : ℕ) (before text buf : List ℕ)
    → n ≤ 31
    → length buf ≡ 32
    → length before ≡ 1
    → take (1 + n) buf ≡ before ++ text
    → read_string (set buf 0 (768 + (2 + n * 2))) ≡ some text
unfolding read_string
read_string-set n before text [] h full one e = absurd (omega (arith, full))
read_string-set n [] text (b ∷ bs) h full one e = absurd (omega (arith, one))
read_string-set n (x ∷ y ∷ r) text (b ∷ bs) h full one e = absurd (omega (arith, one))
read_string-set n (x ∷ []) text (b ∷ bs) h full one e =
    let test : ((768 + (2 + n * 2)) / 256 == 3 && (768 + (2 + n * 2)) % 256 % 2 == 0) ≡ true =
      ground arith in
    rw test (
      ap (λ k. some (take k bs)) {y = n} (omega arith)
      ∙ ap some (
          ap (λ k. drop 1 (take k (b ∷ bs))) {x = suc n} {y = 1 + n} (omega arith) ∙ ap (drop 1) e))

pub ascii_to_utf16_lem :
    (s buf : List ℕ)
    → AllChars s
    → length buf ≡ 32
    → read_string (ascii_to_utf16 s buf) ≡ some (take 31 s)
unfolding ascii_to_utf16
ascii_to_utf16_lem s buf h full =
    let c = copy_units_lem s 0 buf h (omega arith) full in
    let r = copy_units s 0 buf in
    ap (λ k. read_string (set (r.1) 0 k)) (header_lem (r.0) (omega (arith, c.0)))
    ∙ read_string-set (r.0) (take 1 buf) (take 31 s) (r.1) (omega (arith, c.0)) c.2
        (length-take 1 buf ∙ omega (arith, full)) c.1

language_lem :
    (buf : List ℕ)
    → length buf ≡ 32
    → read_string (set (set buf 0 (u16 (set_bits (usb_desc_string <<< 8) 4))) 1 0x0409)
      ≡ some (0x0409 ∷ [])
unfolding read_string
language_lem [] full = absurd (omega (arith, full))
language_lem (b ∷ []) full = absurd (omega (arith, full))
language_lem (b ∷ c ∷ bs) full = refl

abbrev FitsText : List ℕ → Type 0
FitsText s = AllChars s × (take 31 s ≡ s)

texts_lem : (index : ℕ) → FitsText (codes (string_text index))
texts_lem index = elim (Bool-cases (index == 1)) [
  | inl a ↦ rw a (omega arith, refl)
  | inr a ↦ rw a (elim (Bool-cases (index == 2)) [
    | inl b ↦ rw b (omega arith, refl)
    | inr b ↦ rw b (elim (Bool-cases (index == 3)) [
      | inl c ↦ rw c (omega arith, refl)
      | inr c ↦ rw c (omega arith, refl)
    ])
  ])
]

-- In a buffer of 32 units, a host reads at every index the text of that index, and at index 0 the
-- language, whatever an earlier call left in the buffer.
pub tud_descriptor_string_cb_lem :
    (index langid : ℕ) (buf : List ℕ)
    → length buf ≡ 32
    → read_string (tud_descriptor_string_cb index langid buf)
      ≡ some (if index == 0 then 0x0409 ∷ [] else codes (string_text index))
unfolding tud_descriptor_string_cb
tud_descriptor_string_cb_lem index langid buf full = elim (Bool-cases (index == 0)) [
  | inl e ↦ rw e (language_lem buf full)
  | inr e ↦
      let t = texts_lem index in
      rw e (ascii_to_utf16_lem (codes (string_text index)) buf t.0 full ∙ ap some t.1)
]
