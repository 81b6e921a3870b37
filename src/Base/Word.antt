-- ===== src/Base/Word.antt =====
-- Unsigned words of C: casts, complements, shifts and single bits.
use Prim.Native.Nat.{ℕ, ◌*◌, ◌/◌, ◌%◌, ◌^◌, bit_and, bit_or, bit_xor}

abbrev pub u8 : ℕ → ℕ
u8 n = n % 2 ^ 8

abbrev pub u16 : ℕ → ℕ
u16 n = n % 2 ^ 16

abbrev pub u32 : ℕ → ℕ
u32 n = n % 2 ^ 32

-- `~x` of a `uint32_t`.
abbrev pub not32 : ℕ → ℕ
not32 x = bit_xor x 0xffffffff

-- `x |= mask` and `x &= ~mask`.
abbrev pub set_bits : ℕ → ℕ → ℕ
set_bits x mask = bit_or x mask

abbrev pub clear_bits : ℕ → ℕ → ℕ
clear_bits x mask = bit_and x (not32 mask)

infixl 75 ◌<<<◌ ◌>>>◌
abbrev pub ◌<<<◌ : ℕ → ℕ → ℕ
x <<< k = x * 2 ^ k

abbrev pub ◌>>>◌ : ℕ → ℕ → ℕ
x >>> k = x / 2 ^ k
