-- ===== src/Memory/Laws.antt =====
-- The laws of the routines of shared/memory.c.
use sg2002_kraken.Base.{
  ℕ, zero, suc, ◌+◌, ◌-◌, ◌≤◌, ◌<◌, ◌≡◌, ◌≢◌, ◌⊎◌, ◌↔◌, refl, ap, subst, ◌∙◌, arith, u8, inl, Bool,
  ◌&&◌, leb, ltb, if◌then◌else◌, dec_lt, ℕ_discrete,
}
use sg2002_kraken.Memory.{
  Mem, write, sg2002_memcpy, sg2002_memset, pos, sg2002_memcmp, strnlen_from, sg2002_strnlen,
}

-- Neither area is overwritten before it is read.
abbrev pub CopiesForward : ℕ → ℕ → ℕ → Type 0
CopiesForward dst src len = (dst ≤ src) ⊎ (src + len ≤ dst)

write_self : (a x v : ℕ) (mem : Mem) → x ≡ a → write a v mem x ≡ v
write_self a x v mem e = ground arith

write_other : (a x v : ℕ) (mem : Mem) → x ≢ a → write a v mem x ≡ mem x
write_other a x v mem ne = ground arith

memcpy_outside :
    (dst src len : ℕ) (mem : Mem) (x : ℕ)
    → (x < dst) ⊎ (dst + len ≤ x)
    → sg2002_memcpy dst src len mem x ≡ mem x
unfolding sg2002_memcpy
memcpy_outside dst src zero mem x h = refl
memcpy_outside dst src (suc len) mem x h =
    memcpy_outside (dst + 1) (src + 1) len (write dst (mem src) mem) x (omega arith) ∙ ground arith

memcpy_inside :
    (dst src len : ℕ) (mem : Mem) (x : ℕ)
    → CopiesForward dst src len
    → dst ≤ x
    → x < dst + len
    → sg2002_memcpy dst src len mem x ≡ mem (src + (x - dst))
unfolding sg2002_memcpy
memcpy_inside dst src zero mem x h ge lt = absurd (omega arith)
memcpy_inside dst src (suc len) mem x h ge lt = elim (ℕ_discrete x dst) [
  | yes e ↦
      memcpy_outside (dst + 1) (src + 1) len (write dst (mem src) mem) x (omega arith)
      ∙ write_self dst x (mem src) mem e
      ∙ ap mem (omega arith)
  | no ne ↦
      memcpy_inside (dst + 1) (src + 1) len (write dst (mem src) mem) x (omega arith) (omega arith)
        (omega arith)
      ∙ write_other dst _ (mem src) mem (omega arith)
      ∙ ap mem (omega arith)
]

-- Whether an address lies in the area of `len` bytes at `base`.
abbrev pub inside : (base len x : ℕ) → Bool
inside base len x = leb base x && ltb x (base + len)

-- memcpy puts the source's bytes, as they were, at the destination and changes no other byte,
-- where the areas do not overlap or the destination is lower.
pub sg2002_memcpy_lem :
    (dst src len : ℕ) (mem : Mem) (x : ℕ)
    → CopiesForward dst src len
    → sg2002_memcpy dst src len mem x ≡ (if inside dst len x then mem (src + (x - dst)) else mem x)
sg2002_memcpy_lem dst src len mem x h = elim (dec_lt x dst) [
  | yes low ↦ ground (arith, memcpy_outside dst src len mem x (inl low))
  | no p ↦ elim (dec_lt x (dst + len)) [
    | yes lt ↦ ground (arith, memcpy_inside dst src len mem x h (omega arith) lt)
    | no q ↦ ground (arith, memcpy_outside dst src len mem x (omega arith))
  ]
]

-- memset fills exactly its area with the low byte of its argument.
pub sg2002_memset_lem :
    (dst c len : ℕ) (mem : Mem) (x : ℕ)
    → sg2002_memset dst c len mem x ≡ (if inside dst len x then u8 c else mem x)
unfolding sg2002_memset
sg2002_memset_lem dst c zero mem x = ground arith
sg2002_memset_lem dst c (suc len) mem x =
    let rest = sg2002_memset_lem (dst + 1) c len (write dst (u8 c) mem) x in
    elim (ℕ_discrete x dst) [ yes e ↦ rest ∙ ground arith | no ne ↦ rest ∙ ground arith ]

-- memcmp returns 0 exactly when the two areas hold the same bytes.
pub sg2002_memcmp_eq_iff :
    (a b len : ℕ) (mem : Mem)
    → (sg2002_memcmp a b len mem ≡ pos 0) ↔ ((i : ℕ) → i < len → mem (a + i) ≡ mem (b + i))
unfolding sg2002_memcmp
sg2002_memcmp_eq_iff a b zero mem = (λ _ i lt. absurd (omega arith), λ _. refl)
sg2002_memcmp_eq_iff a b (suc len) mem =
    let rest = sg2002_memcmp_eq_iff (a + 1) (b + 1) len mem in
    (
      λ e i lt. elim (ℕ_discrete i 0) [
        | yes z ↦
            ap mem {x = a + i} {y = a} (omega arith)
            ∙ (first e).0
            ∙ ap mem {x = b} {y = b + i} (omega arith)
        | no nz ↦
            ap mem {x = a + i} {y = a + 1 + (i - 1)} (omega arith)
            ∙ rest.0 (first e).1 (i - 1) (omega arith)
            ∙ ap mem {x = b + 1 + (i - 1)} {y = b + i} (omega arith)
      ],
      λ h. ground (
        arith,
        ap mem {x = a} {y = a + 0} (omega arith)
            ∙ h 0 (omega arith)
            ∙ ap mem {x = b + 0} {y = b} (omega arith),
        rest.1 (λ i lt.
            ap mem {x = a + 1 + i} {y = a + suc i} (omega arith)
            ∙ h (suc i) (omega arith)
            ∙ ap mem {x = b + suc i} {y = b + 1 + i} (omega arith)),
      ),
    )
  where
    first :
        sg2002_memcmp a b (suc len) mem ≡ pos 0
        → (mem a ≡ mem b) × (sg2002_memcmp (a + 1) (b + 1) len mem ≡ pos 0)
    first e = ground arith

strnlen_stop : (s left n : ℕ) (mem : Mem) → mem (s + n) ≡ 0 → strnlen_from s (suc left) n mem ≡ n
unfolding strnlen_from
strnlen_stop s left n mem z = ground arith

strnlen_on :
    (s left n : ℕ) (mem : Mem)
    → mem (s + n) ≢ 0
    → strnlen_from s (suc left) n mem ≡ strnlen_from s left (n + 1) mem
unfolding strnlen_from
strnlen_on s left n mem nz = ground arith

-- `r` is the length of the string at `s`, cut at `limit`.
abbrev pub IsLength : ℕ → ℕ → Mem → ℕ → Type 0
IsLength s limit mem r =
    (r ≤ limit) × ((i : ℕ) → i < r → mem (s + i) ≢ 0) × (r < limit → mem (s + r) ≡ 0)

strnlen_from-IsLength :
    (s left n : ℕ) (mem : Mem)
    → ((i : ℕ) → i < n → mem (s + i) ≢ 0)
    → IsLength s (n + left) mem (strnlen_from s left n mem)
strnlen_from-IsLength s zero n mem h =
    unfold strnlen_from in (omega arith, h, λ lt. absurd (omega arith))
strnlen_from-IsLength s (suc left) n mem h = elim (ℕ_discrete (mem (s + n)) 0) [
  | yes z ↦ rw (strnlen_stop s left n mem z) (omega arith, h, λ _. z)
  | no nz ↦ rw (strnlen_on s left n mem nz) (
      subst (λ k. IsLength s k mem (strnlen_from s left (n + 1) mem)) {x = n + 1 + left}
        (omega arith) (strnlen_from-IsLength s left (n + 1) mem (longer nz)))
]
  where
    longer : mem (s + n) ≢ 0 → (i : ℕ) → i < n + 1 → mem (s + i) ≢ 0
    longer nz i lt e = elim (dec_lt i n) [
      | yes p ↦ h i p e
      | no p ↦ nz (ap mem {x = s + n} {y = s + i} (omega arith) ∙ e)
    ]

-- strnlen returns the number of bytes before the first NUL, and max_len where the first max_len
-- bytes have none.
pub sg2002_strnlen_lem :
    (s max_len : ℕ) (mem : Mem) → IsLength s max_len mem (sg2002_strnlen s max_len mem)
unfolding sg2002_strnlen
sg2002_strnlen_lem s max_len mem =
    subst (λ k. IsLength s k mem (strnlen_from s max_len 0 mem)) {x = 0 + max_len} (omega arith)
      (strnlen_from-IsLength s max_len 0 mem (λ i lt. absurd (omega arith)))
