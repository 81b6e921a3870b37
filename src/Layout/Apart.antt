-- ===== src/Layout/Apart.antt =====
-- include/kraken.h: fields of a structure do not overlap.
use Prim.Native.String.{String}
use sg2002_kraken.Base.{
  ℕ, ◌+◌, ◌≤◌, ◌≡◌, refl, sym, ◌∙◌, ◌⊎◌, inl, inr, List, [], ◌∷◌, Option, none, some, true, false,
  Bool-cases, arith, eq_text,
}
use sg2002_kraken.Console.{codes}
use sg2002_kraken.Layout.{Field, place, field_at, end_of}

-- Every alignment is 1 or 4.
abbrev pub Aligned : List Field → Type 0
Aligned [] = Unit
Aligned (f ∷ fs) = ((f.align ≡ 1) ⊎ (f.align ≡ 4)) × Aligned fs

at-le-place : (at : ℕ) (f : Field) → (f.align ≡ 1) ⊎ (f.align ≡ 4) → at ≤ place at f
at-le-place at f (inl e) = rw e (omega arith)
at-le-place at f (inr e) = rw e (omega arith)

at-le-end_of : (fields : List Field) (at : ℕ) → Aligned fields → at ≤ end_of fields at
unfolding end_of
at-le-end_of [] at h = omega arith
at-le-end_of (f ∷ fs) at h =
    omega (arith, at-le-place at f (h.0), at-le-end_of fs (place at f + f.size) (h.1))

-- A field that is found lies within bounds.
abbrev In : (lo hi : ℕ) → Option (ℕ × Field) → Type 0
In lo hi none = Unit
In lo hi (some (o, f)) = (lo ≤ o) × (o + f.size ≤ hi)

In-le : (lo lo' hi : ℕ) (r : Option (ℕ × Field)) → lo' ≤ lo → In lo hi r → In lo' hi r
In-le lo lo' hi none le h = tt
In-le lo lo' hi (some (o, f)) le h = (omega (arith, h.0), h.1)

-- A field lies between the place where the fields begin and the place where they end.
field_at-In :
    (name : String) (fields : List Field) (at : ℕ)
    → Aligned fields
    → In at (end_of fields at) (field_at name fields at)
unfolding field_at end_of
field_at-In name [] at h = tt
field_at-In name (f ∷ fs) at h = elim (Bool-cases (eq_text (codes name) (codes f.name))) [
  | inl e ↦ rw e (at-le-place at f (h.0), at-le-end_of fs (place at f + f.size) (h.1))
  | inr e ↦ rw e (
      In-le (place at f + f.size) at _ (field_at name fs (place at f + f.size))
        (omega (arith, at-le-place at f (h.0))) (field_at-In name fs (place at f + f.size) (h.1)))
]

-- Two fields that are found share no byte.
abbrev pub AreApart : (r s : Option (ℕ × Field)) → Type 0
AreApart none s = Unit
AreApart (some p) none = Unit
AreApart (some (o, f)) (some (o', f')) = (o + f.size ≤ o') ⊎ (o' + f'.size ≤ o)

-- The first field is apart from what is found behind it.
first-AreApart :
    (at lo hi : ℕ) (f : Field) (r : Option (ℕ × Field))
    → at + f.size ≤ lo
    → In lo hi r
    → AreApart (some (at, f)) r × AreApart r (some (at, f))
first-AreApart at lo hi f none le h = (tt, tt)
first-AreApart at lo hi f (some (o, g)) le h = (inl (omega (arith, h.0)), inr (omega (arith, h.0)))

eq_text_same :
    (xs ys zs : List ℕ) → eq_text xs zs ≡ true → eq_text ys zs ≡ true → eq_text xs ys ≡ true
unfolding eq_text
eq_text_same [] [] zs e e' = refl
eq_text_same [] (y ∷ ys) [] e e' = e'
eq_text_same [] (y ∷ ys) (z ∷ zs) e e' = cc
eq_text_same (x ∷ xs) [] [] e e' = e
eq_text_same (x ∷ xs) [] (z ∷ zs) e e' = cc
eq_text_same (x ∷ xs) (y ∷ ys) [] e e' = cc
eq_text_same (x ∷ xs) (y ∷ ys) (z ∷ zs) e e' = ground (arith, e, e', eq_text_same xs ys zs)

-- In a structure whose alignments are 1 or 4, fields of different names share no byte.
pub field_at-AreApart :
    (x y : String) (fields : List Field) (at : ℕ)
    → Aligned fields
    → eq_text (codes x) (codes y) ≡ false
    → AreApart (field_at x fields at) (field_at y fields at)
unfolding field_at
field_at-AreApart x y [] at h ne = tt
field_at-AreApart x y (f ∷ fs) at h ne =
    let next = place at f + f.size in
    let found_x = field_at-In x fs next (h.1) in
    let found_y = field_at-In y fs next (h.1) in
    elim (Bool-cases (eq_text (codes x) (codes f.name))) [
      | inl e ↦ elim (Bool-cases (eq_text (codes y) (codes f.name))) [
        | inl e' ↦ cc (sym (eq_text_same (codes x) (codes y) (codes f.name) e e') ∙ ne)
        | inr e' ↦ rw e (
            rw e'
              ((first-AreApart (place at f) next _ f (field_at y fs next) (omega arith) found_y).0))
      ]
      | inr e ↦ elim (Bool-cases (eq_text (codes y) (codes f.name))) [
        | inl e' ↦ rw e (
            rw e'
              ((first-AreApart (place at f) next _ f (field_at x fs next) (omega arith) found_x).1))
        | inr e' ↦ rw e (rw e' (field_at-AreApart x y fs next (h.1) ne))
      ]
    ]
