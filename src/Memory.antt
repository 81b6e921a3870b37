-- ===== src/Memory.antt =====
-- shared/memory.c, over a memory that gives each address its byte. Addresses do not wrap.
pub mod Laws
use sg2002_kraken.Base.{ℕ, zero, suc, ◌+◌, ◌-◌, ◌*◌, ◌^◌, leb, ◌==◌, ◌!=◌, if◌then◌else◌, u8}

abbrev pub Mem : Type 0
Mem = ℕ → ℕ

abbrev pub write : ℕ → ℕ → Mem → Mem
write a v mem x = if x == a then v else mem x

-- A little-endian word, as `memcpy` into a `uint32_t` reads it.
abbrev pub load32 : Mem → ℕ → ℕ
load32 mem a = mem a + mem (a + 1) * 2 ^ 8 + mem (a + 2) * 2 ^ 16 + mem (a + 3) * 2 ^ 24

unfoldable pub sg2002_memcpy : (dst src len : ℕ) → Mem → Mem
sg2002_memcpy dst src zero mem = mem
sg2002_memcpy dst src (suc len) mem =
    sg2002_memcpy (dst + 1) (src + 1) len (write dst (mem src) mem)

pub sg2002_memset : (dst c len : ℕ) → Mem → Mem
sg2002_memset dst c zero mem = mem
sg2002_memset dst c (suc len) mem = sg2002_memset (dst + 1) c len (write dst (u8 c) mem)

-- An `int`: `pos n` is n, `negsuc n` is -(n + 1).
pub data ℤ : Type 0 where
  pos : ℕ → ℤ
  negsuc : ℕ → ℤ

-- a - b, as an integer.
abbrev pub sub_ℕ : ℕ → ℕ → ℤ
sub_ℕ a b = if leb b a then pos (a - b) else negsuc (b - a - 1)

pub sg2002_memcmp : (a b len : ℕ) → Mem → ℤ
sg2002_memcmp a b zero mem = pos 0
sg2002_memcmp a b (suc len) mem =
    let rest = sg2002_memcmp (a + 1) (b + 1) len mem in
    if mem a != mem b then sub_ℕ (mem a) (mem b) else rest

-- The loop of `sg2002_strnlen` at `n`, with `left` = `max_len - n`.
pub strnlen_from : (s left n : ℕ) → Mem → ℕ
strnlen_from s zero n mem = n
strnlen_from s (suc left) n mem =
    let rest = strnlen_from s left (n + 1) mem in if mem (s + n) != 0 then rest else n

pub sg2002_strnlen : (s max_len : ℕ) → Mem → ℕ
unfolding strnlen_from
sg2002_strnlen s max_len mem = strnlen_from s max_len 0 mem
