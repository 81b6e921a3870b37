-- ===== src/Image/Find.antt =====
-- The search for the footer of a staged image (shared/image.c).
use sg2002_kraken.Base.{
  ℕ, zero, suc, ◌+◌, ◌-◌, ◌≤◌, ◌<◌, ◌≡◌, sym, ap, ◌∙◌, Option, none, some, arith, Option-cases, ◌↔◌,
  inl, inr, subst, dec_lt, ℕ_discrete,
}
use sg2002_kraken.Kraken.Structs.{Footer}
use sg2002_kraken.Memory.{Mem}
use sg2002_kraken.Image.{
  footer_size, read_footer, load_staged_footer, or_else, scan, sg2002_find_staged_image,
}
use sg2002_kraken.Image.Candidate.{IsFooterAt, load_staged_footer_iff, try_offset_lem}

-- The reference for the search: the footer at the highest offset up to a bound.
pub highest : Mem → (base max_len off : ℕ) → Option Footer
highest mem base max_len zero = load_staged_footer mem base zero max_len
highest mem base max_len (suc off) =
    or_else (load_staged_footer mem base (suc off) max_len) (highest mem base max_len off)

scan-eq-highest :
    (mem : Mem) (base max_len off : ℕ) → scan mem base max_len off ≡ highest mem base max_len off
unfolding scan highest
scan-eq-highest mem base max_len zero = try_offset_lem mem base max_len zero
scan-eq-highest mem base max_len (suc off) =
    ground (arith, try_offset_lem mem base max_len (suc off), scan-eq-highest mem base max_len off)

entered :
    (mem : Mem) (addr max_len : ℕ)
    → footer_size ≤ max_len
    → sg2002_find_staged_image mem addr max_len
      ≡ or_else
          (load_staged_footer mem addr (max_len - footer_size) max_len)
          (scan mem addr max_len (max_len - footer_size))
unfolding sg2002_find_staged_image
entered mem addr max_len fits = ground arith

again :
    (mem : Mem) (base max_len off : ℕ)
    → or_else (load_staged_footer mem base off max_len) (highest mem base max_len off)
      ≡ highest mem base max_len off
unfolding highest
again mem base max_len zero = ground arith
again mem base max_len (suc off) = ground arith

-- A search that finds returns the footer at some offset, and none lies higher.
record Found (mem : Mem) (base max_len bound : ℕ) (f : Footer) : Type 0 where
  off : ℕ
  below : off ≤ bound
  here : load_staged_footer mem base off max_len ≡ some f
  first : (k : ℕ) → off < k → k ≤ bound → load_staged_footer mem base k max_len ≡ none

highest-some :
    (mem : Mem) (base max_len bound : ℕ) (f : Footer)
    → highest mem base max_len bound ≡ some f
    → Found mem base max_len bound f
unfolding highest
highest-some mem base max_len zero f h = record {
  off = 0;
  below = omega arith;
  here = h;
  first = λ k lt le. absurd (omega arith);
}
highest-some mem base max_len (suc bound) f h =
    elim (Option-cases (load_staged_footer mem base (suc bound) max_len)) [
      | inl e ↦
          let rest = highest-some mem base max_len bound f (lower e) in
          record {
            off = rest.off;
            below = omega (arith, rest.below);
            here = rest.here;
            first = λ k lt le. elim (ℕ_discrete k (suc bound)) [
              | yes p ↦ ap (λ j. load_staged_footer mem base j max_len) p ∙ e
              | no p ↦ rest.first k lt (omega arith)
            ];
          }
      | inr (g, e) ↦ record {
        off = suc bound;
        below = omega arith;
        here = e ∙ upper g e;
        first = λ k lt le. absurd (omega arith);
      }
    ]
  where
    lower :
        load_staged_footer mem base (suc bound) max_len ≡ none
        → highest mem base max_len bound ≡ some f
    lower e = ground (arith, h)

    upper :
        (g : Footer) → load_staged_footer mem base (suc bound) max_len ≡ some g → some g ≡ some f
    upper g e = ground (arith, h)

highest-none :
    (mem : Mem) (base max_len bound : ℕ)
    → highest mem base max_len bound ≡ none
    → (k : ℕ) → k ≤ bound
    → load_staged_footer mem base k max_len ≡ none
unfolding highest
highest-none mem base max_len zero h k le =
    ap (λ j. load_staged_footer mem base j max_len) {y = 0} (omega arith) ∙ h
highest-none mem base max_len (suc bound) h k le = elim (ℕ_discrete k (suc bound)) [
  | yes p ↦ ap (λ j. load_staged_footer mem base j max_len) p ∙ upper
  | no p ↦ highest-none mem base max_len bound lower k (omega arith)
]
  where
    upper : load_staged_footer mem base (suc bound) max_len ≡ none
    upper = ground (arith, h)

    lower : highest mem base max_len bound ≡ none
    lower = ground (arith, h)

-- The first attempt is the first step of the scan, so the function is the reference search.
pub sg2002_find_staged_image_eq_highest :
    (mem : Mem) (addr max_len : ℕ)
    → footer_size ≤ max_len
    → sg2002_find_staged_image mem addr max_len ≡ highest mem addr max_len (max_len - footer_size)
sg2002_find_staged_image_eq_highest mem addr max_len fits =
    entered mem addr max_len fits
    ∙ ap (or_else (load_staged_footer mem addr (max_len - footer_size) max_len))
        (scan-eq-highest mem addr max_len (max_len - footer_size))
    ∙ again mem addr max_len (max_len - footer_size)

too_short :
    (mem : Mem) (addr max_len : ℕ)
    → max_len < footer_size
    → sg2002_find_staged_image mem addr max_len ≡ none
unfolding sg2002_find_staged_image
too_short mem addr max_len h = ground arith

module _ (mem : Mem) (addr max_len : ℕ) where
  abbrev IsHighest : Footer → Type 0
  IsHighest f =
      IsFooterAt mem addr f.payload_size max_len f
      × ((k : ℕ) (g : Footer) → f.payload_size < k → ¬ IsFooterAt mem addr k max_len g)

  Found-IsHighest : (f : Footer) → Found mem addr max_len (max_len - footer_size) f → IsHighest f
  Found-IsHighest f r =
      let here = (load_staged_footer_iff mem addr r.off max_len f).0 r.here in
      (
        subst (λ k. IsFooterAt mem addr k max_len f) (sym here.size) here,
        λ k g lt at.
            let loads = (load_staged_footer_iff mem addr k max_len g).1 at in
            let stops = r.first k (omega (arith, here.size)) (omega (arith, at.inside)) in cc,
      )

  find-IsHighest : (f : Footer) → sg2002_find_staged_image mem addr max_len ≡ some f → IsHighest f
  find-IsHighest f h = elim (dec_lt max_len footer_size) [
    | yes p ↦ let e = too_short mem addr max_len p in absurd (some_not_none e)
    | no p ↦ Found-IsHighest f (
        highest-some mem addr max_len (max_len - footer_size) f
          (sym (sg2002_find_staged_image_eq_highest mem addr max_len (omega arith)) ∙ h))
  ]
    where
      some_not_none : sg2002_find_staged_image mem addr max_len ≡ none → ⊥
      some_not_none e = cc

  IsHighest-unique : (f g : Footer) → IsHighest f → IsHighest g → f ≡ g
  IsHighest-unique f g p q = p.0.bytes ∙ ap (λ k. read_footer mem (addr + k)) same ∙ sym q.0.bytes
    where
      same : f.payload_size ≡ g.payload_size
      same = elim (dec_lt f.payload_size g.payload_size) [
        | yes lt ↦ absurd (p.1 g.payload_size g lt q.0)
        | no nlt ↦ elim (dec_lt g.payload_size f.payload_size) [
          | yes lt ↦ absurd (q.1 f.payload_size f lt p.0)
          | no ngt ↦ omega arith
        ]
      ]

  IsHighest-find : (f : Footer) → IsHighest f → sg2002_find_staged_image mem addr max_len ≡ some f
  IsHighest-find f p = elim (Option-cases (sg2002_find_staged_image mem addr max_len)) [
    | inl e ↦ absurd (missed e)
    | inr (g, e) ↦ e ∙ ap some (IsHighest-unique g f (find-IsHighest g e) p)
  ]
    where
      missed : sg2002_find_staged_image mem addr max_len ≡ none → ⊥
      missed e =
          let loads = (load_staged_footer_iff mem addr f.payload_size max_len f).1 p.0 in
          let skips =
            highest-none mem addr max_len (max_len - footer_size)
              (sym
                  (sg2002_find_staged_image_eq_highest mem addr max_len (omega (arith, p.0.inside)))
                ∙ e)
              f.payload_size (omega (arith, p.0.inside)) in
          cc

-- The search returns a footer exactly where that footer lies in the window at the offset it names
-- as its payload's size, with its magic words, version and complementary checksums, and no footer
-- lies at a higher offset.
pub sg2002_find_staged_image_iff :
    (mem : Mem) (addr max_len : ℕ) (f : Footer)
    → (sg2002_find_staged_image mem addr max_len ≡ some f)
      ↔ IsFooterAt mem addr f.payload_size max_len f
        × ((k : ℕ) (g : Footer) → f.payload_size < k → ¬ IsFooterAt mem addr k max_len g)
sg2002_find_staged_image_iff mem addr max_len f =
    (find-IsHighest mem addr max_len f, IsHighest-find mem addr max_len f)
