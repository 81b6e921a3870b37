-- ===== src/Hex/Long.antt =====
-- The 64-bit printing of shared/usb_serial.c and shared/uart.c.
use native.Mathlib.Nat.{pow-suc}
use sg2002_kraken.Base.{
  ℕ, zero, suc, ◌+◌, ◌*◌, ◌^◌, ◌<◌, ◌≡◌, refl, sym, ap, ap₂, ◌∙◌, List, [], ◌∷◌, ◌++◌, length,
  length-append, arith, bit_and, bit_and_mask, u32, ◌>>>◌,
}
use sg2002_kraken.Hex.{uart_puthex, uart_puthex64, console_puthex64, puthex_from}
use sg2002_kraken.Hex.Digits.{digit_value, value, console_hex32_to_buf_lem}

length-puthex_from : (n v : ℕ) → length (puthex_from n v) ≡ n
unfolding puthex_from
length-puthex_from zero v = refl
length-puthex_from (suc n) v = ap suc (length-puthex_from n v)

pub length-uart_puthex64 : (v : ℕ) → length (uart_puthex64 v) ≡ 16
unfolding uart_puthex64 uart_puthex
length-uart_puthex64 v = omega (
  arith,
  length-append (puthex_from 8 (u32 (v >>> 32))) (puthex_from 8 (u32 (bit_and v 0xffffffff))),
  length-puthex_from 8 (u32 (v >>> 32)),
  length-puthex_from 8 (u32 (bit_and v 0xffffffff)),
)

value-append : (acc : ℕ) (xs ys : List ℕ) → value acc (xs ++ ys) ≡ value (value acc xs) ys
unfolding value
value-append acc [] ys = refl
value-append acc (x ∷ xs) ys = value-append (acc * 16 + digit_value x) xs ys

value-from : (acc : ℕ) (xs : List ℕ) → value acc xs ≡ acc * 16 ^ length xs + value 0 xs
unfolding value
value-from acc [] = omega arith
value-from acc (x ∷ xs) =
    value-from (acc * 16 + digit_value x) xs
    ∙ spread acc (digit_value x) (16 ^ length xs) (value 0 xs)
    ∙ ap₂ (λ (p r : ℕ). acc * p + r) (sym (pow-suc 16 (length xs)))
        (sym (value-from (0 * 16 + digit_value x) xs ∙ zero_head (digit_value x) _ _))
  where
    spread : (a d p v : ℕ) → (a * 16 + d) * p + v ≡ a * (p * 16) + (d * p + v)
    spread a d p v = grind arith

    zero_head : (d p v : ℕ) → (0 * 16 + d) * p + v ≡ d * p + v
    zero_head d p v = grind arith

-- The two words of a 64-bit one.
abbrev high : ℕ → ℕ
high v = u32 (v >>> 32)

abbrev low : ℕ → ℕ
low v = u32 (bit_and v 0xffffffff)

pub value-uart_puthex64 : (v : ℕ) → v < 2 ^ 64 → value 0 (uart_puthex64 v) ≡ v
unfolding uart_puthex64
value-uart_puthex64 v h =
    value-append 0 (uart_puthex (high v)) (uart_puthex (low v))
    ∙ value-from (value 0 (uart_puthex (high v))) (uart_puthex (low v))
    ∙ ap₂ (λ (a b : ℕ). value 0 (uart_puthex (high v)) * 16 ^ a + b) (length-puthex_from 8 (low v))
        (back (low v) (omega arith))
    ∙ omega (arith, back (high v) (omega arith), bit_and_mask 32 v)
  where
    back : (w : ℕ) → w < 2 ^ 32 → value 0 (uart_puthex w) ≡ w
    back w fits = let both = console_hex32_to_buf_lem w fits in ap (value 0) (sym both.0) ∙ both.1

-- For a 64-bit word, the console's and the UART's printers write the same characters, and these
-- read back as the word.
console_puthex64_lem :
    (v : ℕ) → v < 2 ^ 64 → (console_puthex64 v ≡ uart_puthex64 v) × (value 0 (uart_puthex64 v) ≡ v)
unfolding console_puthex64 uart_puthex64
console_puthex64_lem v h = (
  ap₂ (λ (a b : List ℕ). a ++ b) ((console_hex32_to_buf_lem (high v) (omega arith)).0)
      ((console_hex32_to_buf_lem (low v) (omega arith)).0),
  value-uart_puthex64 v h,
)
