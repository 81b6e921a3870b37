-- ===== src/UsbSerial/Store.antt =====
-- shared/usb_serial.c: a chunk from the device goes into the receive ring.
use mathlib.Core.List.{append_assoc, append-nil}
use sg2002_kraken.Base.{
  ℕ, zero, suc, ◌+◌, ◌-◌, ◌*◌, ◌/◌, ◌≤◌, ◌<◌, ◌≡◌, ◌≢◌, refl, sym, ap, ap₂, ◌∙◌, List, [], ◌∷◌,
  ◌++◌, arith, length, take, drop, set, ℕ_discrete, dec_le, length-drop, length-take, drop-drop,
  drop-nil, length-append,
}
use sg2002_kraken.Kraken.Structs.{UsbCtrl}
use sg2002_kraken.UsbSerial.{ring_next, rx_ring_free, chunk_size, store_rx}
use sg2002_kraken.UsbSerial.Ring.{length-contents, used-lt, used, push-IsRing}
use sg2002_kraken.UsbSerial.Queue.{IsUsb, tx_queue, rx_queue, room, take-nil, stays, grows}

store_full :
    (b : ℕ) (bs : List ℕ) (u : UsbCtrl) → ring_next u.rx_head ≡ u.rx_tail → store_rx (b ∷ bs) u ≡ u
unfolding store_rx
store_full b bs u e = ground arith

store_room :
    (b : ℕ) (bs : List ℕ) (u : UsbCtrl)
    → ring_next u.rx_head ≢ u.rx_tail
    → store_rx (b ∷ bs) u
      ≡ store_rx bs
          (record u { rx_ring = set u.rx_ring u.rx_head b; rx_head = ring_next u.rx_head })
unfolding store_rx
store_room b bs u ne = ground arith

-- On well-formed rings, a chunk goes to the end of the receive queue, as much of it as fits.
pub store_rx_lem :
    (bs : List ℕ) {u : UsbCtrl}
    → IsUsb u
    → (rx_queue (store_rx bs u) ≡ rx_queue u ++ take (room (rx_queue u)) bs)
      × (tx_queue (store_rx bs u) ≡ tx_queue u)
      × IsUsb (store_rx bs u)
unfolding store_rx tx_queue rx_queue
store_rx_lem [] {u} h =
    (sym (ap (λ l. rx_queue u ++ l) (take-nil _) ∙ append-nil (rx_queue u)), refl, h)
store_rx_lem (b ∷ bs) {u} h = elim (ℕ_discrete (ring_next u.rx_head) u.rx_tail) [
  | yes e ↦ rw (store_full b bs u e) (stays u.rx_ring u.rx_head u.rx_tail b bs h.rx e, refl, h)
  | no ne ↦
      let rest =
        store_rx_lem bs
          {u = record u { rx_ring = set u.rx_ring u.rx_head b; rx_head = ring_next u.rx_head }}
          (record { rx = push-IsRing u.rx_ring u.rx_head u.rx_tail b h.rx; tx = h.tx }) in
      rw (store_room b bs u ne)
        (rest.0 ∙ grows u.rx_ring u.rx_head u.rx_tail b bs h.rx ne, rest.1, rest.2)
]

length-rx_queue : (u : UsbCtrl) → length (rx_queue u) ≡ used u.rx_head u.rx_tail
unfolding rx_queue
length-rx_queue u = length-contents u.rx_ring u.rx_head u.rx_tail

pub queue_small : {u : UsbCtrl} → IsUsb u → length (rx_queue u) ≤ 511
queue_small {u} h = omega (arith, length-rx_queue u, used-lt u.rx_head u.rx_tail h.rx)

pub rx_ring_free_lem : (u : UsbCtrl) → rx_ring_free u ≡ room (rx_queue u)
unfolding rx_ring_free
rx_ring_free_lem u = omega (arith, length-rx_queue u)

pub take-split :
    (r n : ℕ) (xs : List ℕ) → take r xs ≡ take r (take n xs) ++ take (r - n) (drop n xs)
take-split r zero xs = ap₂ (λ a b. a ++ take b xs) {x = []} (sym (take-nil r)) (omega arith)
take-split r (suc n) [] = rw (take-nil r, take-nil (r - suc n)) refl
take-split zero (suc n) (x ∷ xs) = ap (λ k. take k (drop n xs)) {x = 0} (omega arith)
take-split (suc r) (suc n) (x ∷ xs) =
    ap (λ l. x ∷ l)
      (take-split r n xs ∙ ap (λ k. take r (take n xs) ++ take k (drop n xs)) (omega arith))

pub no_bytes : (bytes : List ℕ) → length bytes ≡ 0 → bytes ≡ []
no_bytes [] e = refl
no_bytes (b ∷ bs) e = absurd (omega (arith, e))

pub drop_past : (n : ℕ) (xs : List ℕ) → length xs ≤ n → drop n xs ≡ []
drop_past n xs h = no_bytes _ (omega (arith, length-drop n xs))

-- The whole chunks that make `free` bytes or more.
abbrev pub whole_chunks : ℕ → ℕ
whole_chunks free = 32 * ((free + 31) / 32)

-- The queue `q` takes a chunk of the bytes `p` that wait.
module _ (q p : List ℕ) (small : length q ≤ 511) where
  abbrev pub longer : List ℕ
  longer = q ++ take (room q) (take chunk_size p)

  room-longer : chunk_size ≤ length p → room longer ≡ room q - 32
  room-longer enough = omega (
    arith,
    length-append q (take (room q) (take chunk_size p)),
    length-take (room q) (take chunk_size p),
    length-take chunk_size p,
  )

  pub chunk_queue : longer ++ take (room longer) (drop chunk_size p) ≡ q ++ take (room q) p
  chunk_queue =
      append_assoc q (take (room q) (take chunk_size p)) (take (room longer) (drop chunk_size p))
      ∙ ap (λ l. q ++ l)
          (ap (λ l. take (room q) (take chunk_size p) ++ l) same
            ∙ sym (take-split (room q) chunk_size p))
    where
      same : take (room longer) (drop chunk_size p) ≡ take (room q - chunk_size) (drop chunk_size p)
      same = elim (dec_le chunk_size (length p)) [
        | yes enough ↦ ap (λ k. take k (drop chunk_size p)) (room-longer enough)
        | no few ↦
            let none = drop_past chunk_size p (omega (arith, few)) in
            rw none (take-nil (room longer) ∙ sym (take-nil (room q - chunk_size)))
      ]

  pub chunk_left :
      0 < room q
      → drop (whole_chunks (room longer)) (drop chunk_size p) ≡ drop (whole_chunks (room q)) p
  chunk_left free = elim (dec_le chunk_size (length p)) [
    | yes enough ↦
        drop-drop chunk_size (whole_chunks (room longer)) p
        ∙ ap (λ k. drop k p) (omega (arith, room-longer enough, free))
    | no few ↦
        ap (drop (whole_chunks (room longer))) (drop_past chunk_size p (omega (arith, few)))
        ∙ drop-nil _
        ∙ sym (drop_past (whole_chunks (room q)) p (omega (arith, few, free)))
  ]
