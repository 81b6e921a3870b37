-- ===== src/UsbSerial/Ring.antt =====
-- The rings of shared/usb_serial.c: the bytes of a ring in order, and the effect of a step.
use sg2002_kraken.Base.{
  ℕ, suc, ◌+◌, ◌-◌, ◌%◌, ◌<◌, ◌≡◌, ◌≢◌, ap, ap₂, ◌∙◌, List, [], ◌∷◌, ◌++◌, arith, leb,
  if◌then◌else◌, bit_and_mask, u32, length, get_or, set, window, window-push, window-congr,
  length-window, length-set,
}
use sg2002_kraken.Kraken.Config.{usb_serial_ring_size}
use sg2002_kraken.UsbSerial.{ring_next}

abbrev pub used : ℕ → ℕ → ℕ
used head tail = if leb tail head then head - tail else usb_serial_ring_size - (tail - head)

pub record IsRing (buf : List ℕ) (head tail : ℕ) : Type 0 where
  pub slots : length buf ≡ usb_serial_ring_size
  pub head_in : head < usb_serial_ring_size
  pub tail_in : tail < usb_serial_ring_size

-- The bytes of the ring, oldest first.
unfoldable pub contents : List ℕ → ℕ → ℕ → List ℕ
contents buf head tail = window 0 usb_serial_ring_size buf tail (used head tail)

pub ring_next-eq : (i : ℕ) → i < usb_serial_ring_size → ring_next i ≡ (i + 1) % usb_serial_ring_size
unfolding ring_next
ring_next-eq i h = omega (arith, bit_and_mask 9 (u32 (i + 1)))

pub length-contents :
    (buf : List ℕ) (head tail : ℕ) → length (contents buf head tail) ≡ used head tail
unfolding contents
length-contents buf head tail = length-window 0 usb_serial_ring_size buf tail (used head tail)

pub used-lt :
    {buf : List ℕ} (head tail : ℕ) → IsRing buf head tail → used head tail < usb_serial_ring_size
used-lt head tail h = ground (arith, h)

module _ (buf : List ℕ) (head tail b : ℕ) (h : IsRing buf head tail) where
  pub used_push : ring_next head ≢ tail → used (ring_next head) tail ≡ used head tail + 1
  used_push room = ground (arith, h, ring_next-eq head h.head_in)

  pub push-IsRing : IsRing (set buf head b) (ring_next head) tail
  push-IsRing = record {
    slots = length-set buf head b ∙ h.slots;
    head_in = omega (arith, ring_next-eq head h.head_in);
    tail_in = h.tail_in;
  }

  -- A byte that fits goes to the end.
  pub contents-push :
      ring_next head ≢ tail
      → contents (set buf head b) (ring_next head) tail ≡ contents buf head tail ++ (b ∷ [])
  unfolding contents
  contents-push room =
      ap (window 0 usb_serial_ring_size (set buf head b) tail) {y = suc (used head tail)}
        (omega (arith, used_push room))
      ∙ window-push 0 usb_serial_ring_size buf tail (used head tail) head b (used-lt head tail h)
          (omega (arith, h.slots)) (ground (arith, h))

-- The ring is full where one place is left.
pub full_iff_used :
    {buf : List ℕ} (head tail : ℕ)
    → IsRing buf head tail
    → ring_next head ≡ tail
    → used head tail ≡ 511
full_iff_used head tail h e = ground (arith, h, ring_next-eq head h.head_in)

module _ (buf : List ℕ) (head tail : ℕ) (h : IsRing buf head tail) where
  pub pop-IsRing : IsRing buf head (ring_next tail)
  pop-IsRing = record {
    slots = h.slots;
    head_in = h.head_in;
    tail_in = omega (arith, ring_next-eq tail h.tail_in);
  }

  pub used_pop : tail ≢ head → used head tail ≡ suc (used head (ring_next tail))
  used_pop some_left = ground (arith, h, ring_next-eq tail h.tail_in)

  -- The byte at the tail is the first.
  pub contents-pop :
      tail ≢ head → contents buf head tail ≡ get_or buf tail 0 ∷ contents buf head (ring_next tail)
  unfolding contents
  contents-pop some_left =
      ap (window 0 usb_serial_ring_size buf tail) {y = suc (used head (ring_next tail))}
        (ground (arith, used_pop some_left))
      ∙ ap₂ ◌∷◌ (ap (λ (i : ℕ). get_or buf i 0) (omega (arith, h.tail_in))) (
          window-congr 0 usb_serial_ring_size buf (tail + 1) (ring_next tail) _
            (omega (arith, ring_next-eq tail h.tail_in)))

pub contents-empty : (buf : List ℕ) (head : ℕ) → contents buf head head ≡ []
unfolding contents
contents-empty buf head = ap (window 0 usb_serial_ring_size buf head) {y = 0} (ground arith)
