-- ===== src/Base/Bits.antt =====
-- Laws of `&`, `|` and `^` at variables: one equation for the lowest digit, then one bit at a time.
use Prim.Native.Nat.{
  ℕ, zero, suc, ◌+◌, ◌-◌, ◌*◌, ◌/◌, ◌%◌, ◌^◌, ◌≤◌, ◌<◌, min, max, bit_and, bit_or, bit_xor,
}
use Prim.Native.Nat.{digits, differ, bitwise, bit_and-bitwise, bit_or-bitwise, bit_xor-bitwise}
use mathlib.Core.Path.{◌≡◌, refl, ap, ap₂, ◌∙◌}
use mathlib.Core.Logic.{◌≢◌}
use native.Mathlib.Nat.{pow-suc, one-le-pow, div-div-eq-div-mul}
use native.Mathlib.Decide.{ℕ_discrete}
use native.Mathlib.Omega.{arith}

-- `digits` runs on fuel: a unit beyond the first number changes nothing.
spare_fuel :
    (z : ℕ → ℕ) (f : ℕ → ℕ → ℕ) (n a b : ℕ) → a ≤ n → digits z f (suc n) a b ≡ digits z f n a b
spare_fuel z f zero zero b h = refl
spare_fuel z f zero (suc a) b h = absurd (omega arith)
spare_fuel z f (suc n) zero b h = refl
spare_fuel z f (suc n) (suc a) b h =
    ap (λ (t : ℕ). t * 2 + f (suc a % 2) (b % 2))
      (spare_fuel z f n (suc a / 2) (b / 2) (omega arith))

least_fuel : (z : ℕ → ℕ) (f : ℕ → ℕ → ℕ) (n a b : ℕ) → a ≤ n → digits z f n a b ≡ digits z f a a b
least_fuel z f zero a b h = ap (λ (k : ℕ). digits z f k a b) {x = 0} (omega arith)
least_fuel z f (suc n) a b h = elim (ℕ_discrete a (suc n)) [
  | yes e ↦ ap (λ (k : ℕ). digits z f k a b) {x = suc n} (omega arith)
  | no ne ↦ spare_fuel z f n a b (omega arith) ∙ least_fuel z f n a b (omega arith)
]

-- The lowest digit of an operation, where `z` agrees with `f` once the first number is used up.
lowest_digit :
    (z : ℕ → ℕ) (f : ℕ → ℕ → ℕ)
    → ((y : ℕ) → z y ≡ z (y / 2) * 2 + f 0 (y % 2))
    → (a b : ℕ) → bitwise z f a b ≡ bitwise z f (a / 2) (b / 2) * 2 + f (a % 2) (b % 2)
lowest_digit z f agree zero b = agree b
lowest_digit z f agree (suc a) b =
    ap (λ (t : ℕ). t * 2 + f (suc a % 2) (b % 2))
      (least_fuel z f a (suc a / 2) (b / 2) (omega arith))

-- On digits, `differ` is the sum without carry.
differ_digits : (x y : ℕ) → x < 2 → y < 2 → differ x y ≡ (x + y) % 2
differ_digits zero y p q = omega arith
differ_digits (suc zero) zero p q = refl
differ_digits (suc zero) (suc zero) p q = refl
differ_digits (suc zero) (suc (suc y)) p q = absurd (omega arith)
differ_digits (suc (suc x)) y p q = absurd (omega arith)

pub bit_xor_step : (a b : ℕ) → bit_xor a b ≡ bit_xor (a / 2) (b / 2) * 2 + (a % 2 + b % 2) % 2
bit_xor_step a b = simp bit_xor-bitwise (
    lowest_digit (λ y. y) differ
      (λ y. omega (arith, differ_digits 0 (y % 2) (omega arith) (omega arith))) a b
    ∙ omega (arith, differ_digits (a % 2) (b % 2) (omega arith) (omega arith)))

pub bit_and_step : (a b : ℕ) → bit_and a b ≡ bit_and (a / 2) (b / 2) * 2 + min (a % 2) (b % 2)
bit_and_step a b = simp bit_and-bitwise (lowest_digit (λ y. 0) min (λ y. omega arith) a b)

pub bit_or_step : (a b : ℕ) → bit_or a b ≡ bit_or (a / 2) (b / 2) * 2 + max (a % 2) (b % 2)
bit_or_step a b = simp bit_or-bitwise (lowest_digit (λ y. y) max (λ y. omega arith) a b)

-- The bit of weight 2 ^ k.
unfoldable pub bit : ℕ → ℕ → ℕ
bit x zero = x % 2
bit x (suc k) = bit (x / 2) k

pub bit-le : (k x : ℕ) → bit x k ≤ 1
unfolding bit
bit-le zero x = omega arith
bit-le (suc k) x = bit-le k (x / 2)

pub bit-bit_or : (k a b : ℕ) → bit (bit_or a b) k ≡ max (bit a k) (bit b k)
unfolding bit
bit-bit_or zero a b = omega (arith, bit_or_step a b)
bit-bit_or (suc k) a b = rw (half_or a b) (bit-bit_or k (a / 2) (b / 2))
  where
    half_or : (a b : ℕ) → bit_or a b / 2 ≡ bit_or (a / 2) (b / 2)
    half_or a b = omega (arith, bit_or_step a b)

pub bit-bit_and : (k a b : ℕ) → bit (bit_and a b) k ≡ min (bit a k) (bit b k)
unfolding bit
bit-bit_and zero a b = omega (arith, bit_and_step a b)
bit-bit_and (suc k) a b = rw (half_and a b) (bit-bit_and k (a / 2) (b / 2))
  where
    half_and : (a b : ℕ) → bit_and a b / 2 ≡ bit_and (a / 2) (b / 2)
    half_and a b = omega (arith, bit_and_step a b)

pub bit-bit_xor : (k a b : ℕ) → bit (bit_xor a b) k ≡ (bit a k + bit b k) % 2
unfolding bit
bit-bit_xor zero a b = omega (arith, bit_xor_step a b)
bit-bit_xor (suc k) a b = rw (half_xor a b) (bit-bit_xor k (a / 2) (b / 2))
  where
    half_xor : (a b : ℕ) → bit_xor a b / 2 ≡ bit_xor (a / 2) (b / 2)
    half_xor a b = omega (arith, bit_xor_step a b)

-- Numbers with the same bits are equal.
bit_ext_fuel : (n a b : ℕ) → a ≤ n → b ≤ n → ((k : ℕ) → bit a k ≡ bit b k) → a ≡ b
unfolding bit
bit_ext_fuel zero a b ha hb h = omega arith
bit_ext_fuel (suc n) zero zero ha hb h = refl
bit_ext_fuel (suc n) (suc a) b ha hb h =
    omega
      (arith, h 0, bit_ext_fuel n (suc a / 2) (b / 2) (omega arith) (omega arith) (λ k. h (suc k)))
bit_ext_fuel (suc n) zero (suc b) ha hb h =
    omega (arith, h 0, bit_ext_fuel n 0 (suc b / 2) (omega arith) (omega arith) (λ k. h (suc k)))

pub bit_ext : (a b : ℕ) → ((k : ℕ) → bit a k ≡ bit b k) → a ≡ b
bit_ext a b h = bit_ext_fuel (a + b) a b (omega arith) (omega arith) h

zero_bits : (k : ℕ) → bit 0 k ≡ 0
unfolding bit
zero_bits zero = refl
zero_bits (suc k) = zero_bits k

pub bit_and-zero : (a : ℕ) → bit_and a 0 ≡ 0
bit_and-zero a = bit_ext _ _ λ k. omega (arith, bit-bit_and k a 0, zero_bits k)

pub bit_or-zero : (a : ℕ) → bit_or a 0 ≡ a
bit_or-zero a = bit_ext _ _ λ k. omega (arith, bit-bit_or k a 0, zero_bits k)

-- One place more to the left doubles.
shift_one_more : (x n : ℕ) → x * 2 ^ suc n ≡ 2 * (x * 2 ^ n)
shift_one_more x n = let doubled = ap (λ (p : ℕ). x * p) (pow-suc 2 n) in omega arith

bit_and_low : (q r k : ℕ) → r < 2 ^ k → bit_and (r + q * 2 ^ k) (2 ^ k - 1) ≡ r
bit_and_low q r zero fits = rw bit_and-zero (omega arith)
bit_and_low q r (suc k) fits =
    let half = bit_and_low q (r / 2) k (omega (arith, pow-suc 2 k)) in
    ground (
      arith,
      shift_one_more q k,
      half,
      bit_and_step (r + q * 2 ^ suc k) (2 ^ suc k - 1),
      pow-suc 2 k,
    )

-- `|` with a number that has no low bits leaves the low bits alone.
pub bit_or_high :
    (k q r p : ℕ) → r < 2 ^ k → bit_or (q * 2 ^ k + r) (p * 2 ^ k) ≡ bit_or q p * 2 ^ k + r
bit_or_high zero q r p fits =
    ap₂ bit_or {x = q * 1 + r} {y = q} {u = p * 1} {v = p} (omega arith) (omega arith) ∙ omega arith
bit_or_high (suc k) q r p fits = ground (
  arith,
  bit_or_step (q * 2 ^ suc k + r) (p * 2 ^ suc k),
  shift_one_more q k,
  shift_one_more p k,
  shift_one_more (bit_or q p) k,
  pow-suc 2 k,
  bit_or_high k q (r / 2) p (omega arith),
)

-- A mask of `k` low bits is the remainder by `2 ^ k`.
pub bit_and_mask : (k a : ℕ) → bit_and a (2 ^ k - 1) ≡ a % 2 ^ k
bit_and_mask k a = ground (arith, bit_and_low (a / 2 ^ k) (a % 2 ^ k) k, one-le-pow k 2)

-- `a & (1 << k)` is the bit, at its weight.
pub bit_and_pow : (k a : ℕ) → bit_and a (2 ^ k) ≡ bit a k * 2 ^ k
unfolding bit
bit_and_pow zero a = omega (arith, bit_and_step a 1, bit_and-zero (a / 2))
bit_and_pow (suc k) a = omega (
  arith,
  bit_and_step a (2 ^ suc k),
  pow-suc 2 k,
  shift_one_more (bit (a / 2) k) k,
  bit_and_pow k (a / 2),
  ap (λ (t : ℕ). bit_and (a / 2) t) (half_pow k),
)
  where
    half_pow : (k : ℕ) → 2 ^ suc k / 2 ≡ 2 ^ k
    half_pow k = omega (arith, pow-suc 2 k)

-- A word of 32 ones.
ones_bits_from : (n k : ℕ) → k < n → bit (2 ^ n - 1) k ≡ 1
unfolding bit
ones_bits_from zero k h = absurd (omega arith)
ones_bits_from (suc n) zero h = omega (arith, pow-suc 2 n, one-le-pow n 2)
ones_bits_from (suc n) (suc k) h =
    ap (λ (x : ℕ). bit x k) (omega (arith, pow-suc 2 n, one-le-pow n 2))
    ∙ ones_bits_from n k (omega arith)

pub ones_bits : (k : ℕ) → k < 32 → bit 0xffffffff k ≡ 1
ones_bits k h = ones_bits_from 32 k h

-- `1 << k` has bit `k`,
pub bit-pow_self : (k : ℕ) → bit (2 ^ k) k ≡ 1
unfolding bit
bit-pow_self zero = refl
bit-pow_self (suc k) =
    ap (λ (x : ℕ). bit x k) {y = 2 ^ k} (omega (arith, pow-suc 2 k)) ∙ bit-pow_self k

-- and no other.
pub bit-pow_ne : (n k : ℕ) → k ≢ n → bit (2 ^ n) k ≡ 0
unfolding bit
bit-pow_ne zero zero h = absurd (h refl)
bit-pow_ne zero (suc k) h = zero_bits k
bit-pow_ne (suc n) zero h = omega (arith, pow-suc 2 n)
bit-pow_ne (suc n) (suc k) h =
    ap (λ (x : ℕ). bit x k) {y = 2 ^ n} (omega (arith, pow-suc 2 n))
    ∙ bit-pow_ne n k (λ e. h (ap suc e))

-- `^` of words is a word.
pub bit_xor-lt : (k a b : ℕ) → a < 2 ^ k → b < 2 ^ k → bit_xor a b < 2 ^ k
bit_xor-lt zero a b ha hb =
    omega (arith, ap₂ bit_xor {x = a} {y = 0} {u = b} {v = 0} (omega arith) (omega arith))
bit_xor-lt (suc k) a b ha hb = omega (
  arith,
  pow-suc 2 k,
  bit_xor_step a b,
  bit_xor-lt k (a / 2) (b / 2) (omega (arith, pow-suc 2 k)) (omega (arith, pow-suc 2 k)),
)

-- `^` by a fixed word can be undone.
pub bit_xor-cancel : (a b c : ℕ) → bit_xor a c ≡ bit_xor b c → a ≡ b
bit_xor-cancel a b c e = bit_ext a b λ k. omega (
  arith,
  bit-bit_xor k a c,
  bit-bit_xor k b c,
  ap (λ (x : ℕ). bit x k) e,
  bit-le k a,
  bit-le k b,
  bit-le k c,
)

pub bit_xor_comm : (a b : ℕ) → bit_xor a b ≡ bit_xor b a
bit_xor_comm a b = bit_ext _ _ λ k. omega (arith, bit-bit_xor k a b, bit-bit_xor k b a)

-- A word below 2 ^ k has no bit `k`, and any word's bit `k` is its part from 2 ^ k on, mod 2.
pub bit-eq : (k x : ℕ) → bit x k ≡ x / 2 ^ k % 2
unfolding bit
bit-eq zero x = omega arith
bit-eq (suc k) x =
    bit-eq k (x / 2)
    ∙ ap (λ (t : ℕ). t % 2)
        (div-div-eq-div-mul x 2 (2 ^ k) ∙ ap (λ (t : ℕ). x / t) (omega (arith, pow-suc 2 k)))

pub bit_or_comm : (a b : ℕ) → bit_or a b ≡ bit_or b a
bit_or_comm a b = bit_ext _ _ λ k. omega (arith, bit-bit_or k a b, bit-bit_or k b a)
