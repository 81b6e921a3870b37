-- ===== src/UsbSerial/Queue.antt =====
-- The rings of shared/usb_serial.c as queues.
use mathlib.Core.List.{append_assoc, append-nil}
use sg2002_kraken.Base.{
  ℕ, zero, suc, ◌+◌, ◌-◌, ◌<◌, ◌≡◌, ◌≢◌, refl, sym, ap, ap₂, ◌∙◌, List, [], ◌∷◌, ◌++◌, arith, u8,
  length, set, take, false,
}
use sg2002_kraken.Kraken.Config.{usb_serial_ring_size}
use sg2002_kraken.Kraken.Structs.{UsbCtrl}
use sg2002_kraken.UsbSerial.{ring_next, tud_cdc_line_state_cb, usb_serial_set_state}
use sg2002_kraken.UsbSerial.Ring.{
  used, IsRing, contents, length-contents, used-lt, used_push, push-IsRing, contents-push,
  full_iff_used, contents-empty,
}

-- Both rings are in range.
pub record IsUsb (u : UsbCtrl) : Type 0 where
  pub tx : IsRing u.tx_ring u.tx_head u.tx_tail
  pub rx : IsRing u.rx_ring u.rx_head u.rx_tail

unfoldable pub tx_queue : UsbCtrl → List ℕ
tx_queue u = contents u.tx_ring u.tx_head u.tx_tail

unfoldable pub rx_queue : UsbCtrl → List ℕ
rx_queue u = contents u.rx_ring u.rx_head u.rx_tail

-- The bytes that still fit.
abbrev pub room : List ℕ → ℕ
room q = 511 - length q

abbrev pub bytes_of : List ℕ → List ℕ
bytes_of [] = []
bytes_of (b ∷ bs) = u8 b ∷ bytes_of bs

take_full : (n : ℕ) (xs : List ℕ) → n ≡ 0 → take n xs ≡ []
take_full n xs e = ap (λ k. take k xs) e

-- One more byte, where one fits.
take_one : (n : ℕ) (x : ℕ) (xs : List ℕ) → 0 < n → take n (x ∷ xs) ≡ x ∷ take (n - 1) xs
take_one zero x xs h = absurd (omega arith)
take_one (suc n) x xs h = ap (λ k. x ∷ take k xs) (omega arith)

pub take-nil : (n : ℕ) → take {A = ℕ} n [] ≡ []
take-nil zero = refl
take-nil (suc n) = refl

module _ (buf : List ℕ) (head tail b : ℕ) (bs : List ℕ) (h : IsRing buf head tail) where
  -- A full ring takes nothing.
  pub stays :
      ring_next head ≡ tail
      → contents buf head tail
        ≡ contents buf head tail ++ take (room (contents buf head tail)) (b ∷ bs)
  stays e = sym (
      ap (λ l. contents buf head tail ++ l)
        (take_full _ (b ∷ bs)
          (omega (arith, length-contents buf head tail, full_iff_used head tail h e)))
      ∙ append-nil (contents buf head tail))

  -- A byte that fits, and then the rest.
  pub grows :
      ring_next head ≢ tail
      → let q = contents (set buf head b) (ring_next head) tail in
        q ++ take (room q) bs
        ≡ contents buf head tail ++ take (room (contents buf head tail)) (b ∷ bs)
  grows ne =
      ap₂ (λ q k. q ++ take k bs) (contents-push buf head tail b h ne) left
      ∙ append_assoc old (b ∷ []) (take (room old - 1) bs)
      ∙ ap (λ l. old ++ l)
          (sym (take_one (room old) b bs (omega (arith, length-contents buf head tail, small))))
    where
      old : List ℕ
      old = contents buf head tail

      small : used head tail + 1 < usb_serial_ring_size
      small = omega (
        arith,
        used_push buf head tail b h ne,
        used-lt (ring_next head) tail (push-IsRing buf head tail b h),
      )

      left : room (contents (set buf head b) (ring_next head) tail) ≡ room old - 1
      left = omega (
        arith,
        length-contents buf head tail,
        length-contents (set buf head b) (ring_next head) tail,
        used_push buf head tail b h ne,
      )

-- On well-formed rings, a host that drops DTR empties the transmit queue and leaves the receive
-- queue and the rings' well-formedness.
pub tud_cdc_line_state_cb_lem :
    {u : UsbCtrl}
    → IsUsb u
    → let after = tud_cdc_line_state_cb false u in
      (tx_queue after ≡ []) × (rx_queue after ≡ rx_queue u) × IsUsb after
unfolding tud_cdc_line_state_cb usb_serial_set_state tx_queue rx_queue
tud_cdc_line_state_cb_lem {u} h = (
  contents-empty u.tx_ring u.tx_tail,
  refl,
  record {
    tx = record { slots = h.tx.slots; head_in = h.tx.tail_in; tail_in = h.tx.tail_in };
    rx = h.rx;
  },
)
