-- ===== src/Hex/Digits.antt =====
-- The digits that shared/usb_serial.c and shared/uart.c print.
use mathlib.Core.List.{append_assoc, append-nil}
use native.Mathlib.Nat.{pow-suc, div-div-eq-div-mul}
use sg2002_kraken.Base.{
  ℕ, zero, suc, ◌+◌, ◌-◌, ◌*◌, ◌/◌, ◌%◌, ◌^◌, ◌<◌, ◌≡◌, refl, sym, ap, ap₂, ◌∙◌, List, [], ◌∷◌,
  ◌++◌, arith, bit_and, bit_and_mask, get_or, ◌>>>◌, if◌then◌else◌, ltb, Bool, true, false, ◌&&◌,
  ◌==◌, ==_iff, ℕ_discrete,
}
use sg2002_kraken.Hex.{hex, hex_from, console_hex32_to_buf, puthex_from, uart_puthex}

abbrev last_digit : ℕ → ℕ
last_digit v = get_or hex (bit_and v 0xf) 0

four_more : (m : ℕ) → 2 ^ suc (suc (suc (suc m))) ≡ 16 * 2 ^ m
four_more m =
    omega (
      arith,
      pow-suc 2 m,
      pow-suc 2 (suc m),
      pow-suc 2 (suc (suc m)),
      pow-suc 2 (suc (suc (suc m))),
    )

shift_more : (n v : ℕ) → v >>> (suc n * 4) ≡ (v >>> 4) >>> (n * 4)
shift_more n v =
    ap (λ (t : ℕ). v / t)
      (ap (λ (k : ℕ). 2 ^ k) {y = suc (suc (suc (suc (n * 4))))} (omega arith) ∙ four_more (n * 4))
    ∙ sym (div-div-eq-div-mul v 16 (2 ^ (n * 4)))

puthex_from-snoc :
    (n v : ℕ) → puthex_from (suc n) v ≡ puthex_from n (v >>> 4) ++ (last_digit v ∷ [])
unfolding puthex_from
puthex_from-snoc zero v = ap (λ (t : ℕ). last_digit t ∷ []) (omega arith)
puthex_from-snoc (suc n) v =
    ap₂ (λ (x : ℕ) l. last_digit x ∷ l) (shift_more n v) (puthex_from-snoc n v)

hex_from-eq_puthex : (n v : ℕ) (out : List ℕ) → hex_from n v out ≡ puthex_from n v ++ out
unfolding hex_from
hex_from-eq_puthex zero v out = unfold puthex_from in refl
hex_from-eq_puthex (suc n) v out =
    hex_from-eq_puthex n (v >>> 4) (last_digit v ∷ out)
    ∙ sym (
        ap (λ l. l ++ out) (puthex_from-snoc n v)
        ∙ append_assoc (puthex_from n (v >>> 4)) (last_digit v ∷ []) out)

-- The value of a digit and of a text, most significant digit first.
pub digit_value : ℕ → ℕ
digit_value c = if ltb c 58 then c - 48 else c - 87

unfoldable pub value : ℕ → List ℕ → ℕ
value acc [] = acc
value acc (c ∷ cs) = value (acc * 16 + digit_value c) cs

value-snoc :
    (acc : ℕ) (cs : List ℕ) (c : ℕ) → value acc (cs ++ (c ∷ [])) ≡ value acc cs * 16 + digit_value c
unfolding value
value-snoc acc [] c = refl
value-snoc acc (d ∷ cs) c = value-snoc (acc * 16 + digit_value d) cs c

-- A test that holds below a bound.
all_below : (ℕ → Bool) → ℕ → Bool
all_below p zero = true
all_below p (suc n) = p n && all_below p n

all_below-at : (p : ℕ → Bool) (n x : ℕ) → all_below p n ≡ true → x < n → p x ≡ true
unfolding all_below
all_below-at p zero x e h = absurd (omega arith)
all_below-at p (suc n) x e h = elim (ℕ_discrete x n) [
  | yes same ↦ ap p same ∙ (both (p n) (all_below p n) e).0
  | no ne ↦ all_below-at p n x (both (p n) (all_below p n) e).1 (omega arith)
]
  where
    both : (a b : Bool) → a && b ≡ true → (a ≡ true) × (b ≡ true)
    both true b e = (refl, e)
    both false b e = (e, absurd (ground arith))

digit_back : (x : ℕ) → x < 16 → digit_value (get_or hex x 0) ≡ x
digit_back x h =
    (==_iff _ _).0 (all_below-at (λ k. digit_value (get_or hex k 0) == k) 16 x sixteen h)
  where
    sixteen : all_below (λ k. digit_value (get_or hex k 0) == k) 16 ≡ true
    sixteen = unfold all_below digit_value in refl

last_digit-value : (v : ℕ) → digit_value (last_digit v) ≡ v % 16
last_digit-value v = digit_back (bit_and v 15) (omega (arith, bit_and_mask 4 v)) ∙ bit_and_mask 4 v

value-puthex_from : (n v : ℕ) → v < 16 ^ n → value 0 (puthex_from n v) ≡ v
value-puthex_from zero v h = unfold value puthex_from in omega arith
value-puthex_from (suc n) v h =
    ap (value 0) (puthex_from-snoc n v)
    ∙ value-snoc 0 (puthex_from n (v >>> 4)) (last_digit v)
    ∙ omega (arith, value-puthex_from n (v >>> 4) (omega (arith, pow-suc 16 n)), last_digit-value v)

-- For a 32-bit word, the console's and the UART's printers write the same characters, and these
-- read back as the word.
pub console_hex32_to_buf_lem :
    (v : ℕ)
    → v < 2 ^ 32
    → (console_hex32_to_buf v ≡ uart_puthex v) × (value 0 (console_hex32_to_buf v) ≡ v)
unfolding console_hex32_to_buf uart_puthex
console_hex32_to_buf_lem v h = (same, ap (value 0) same ∙ value-puthex_from 8 v h)
  where
    same : hex_from 8 v [] ≡ puthex_from 8 v
    same = hex_from-eq_puthex 8 v [] ∙ append-nil (puthex_from 8 v)
