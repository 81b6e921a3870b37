-- ===== src/Base/Window.antt =====
-- The entries of a ring buffer of `size` slots from a start on, going round at the end.
use Prim.Native.Nat.{ℕ, zero, suc, ◌+◌, ◌-◌, ◌%◌, ◌≤◌, ◌<◌, min}
use mathlib.Core.Path.{◌≡◌, refl, ap, ap₂, sym, ◌∙◌}
use mathlib.Core.Logic.{◌≢◌}
use mathlib.Core.List.{List, [], ◌∷◌, ◌++◌}
use native.Mathlib.Nat.{mod-add-mod, mod-eq_of_lt, mod-eq-sub-mod, add-mod_right}
use native.Mathlib.Decide.{dec_lt}
use native.Mathlib.Omega.{arith}
use sg2002_kraken.Base.Lists.{
  length, get_or, set, drop, length-append, length-drop, get_or-set_self, get_or-set_ne, drop-drop,
  drop-append_of_le,
}

-- Fewer than `size` steps round the ring do not come back to the start.
pub mod-add-ne : (size h k : ℕ) → 0 < k → k < size → (h + k) % size ≢ h % size
mod-add-ne size h k pos small e = elim (dec_lt (h % size + k) size) [
  | yes p ↦ omega (arith, mod-add-mod h size k, mod-eq_of_lt p)
  | no p ↦ omega (
    arith,
    mod-add-mod h size k,
    mod-eq-sub-mod {n = h % size + k} {m = size} (omega arith),
    mod-eq_of_lt {n = h % size + k - size} {m = size} (omega arith),
  )
]

-- Going on by `k` keeps the place in the ring.
pub mod-add_congr : (size s t k : ℕ) → s % size ≡ t % size → (s + k) % size ≡ (t + k) % size
mod-add_congr size s t k e =
    sym (mod-add-mod s size k) ∙ ap (λ (x : ℕ). (x + k) % size) e ∙ mod-add-mod t size k

module _ {ℓ} {A : Type ℓ} (d : A) (size : ℕ) where
  abbrev pub window : List A → ℕ → ℕ → List A
  window buf start zero = []
  window buf start (suc n) = get_or buf (start % size) d ∷ window buf (start + 1) n

  pub length-window : (buf : List A) (start n : ℕ) → length (window buf start n) ≡ n
  length-window buf start zero = refl
  length-window buf start (suc n) = ap suc (length-window buf (start + 1) n)

  pub window-snoc :
      (buf : List A) (start n : ℕ)
      → window buf start (suc n) ≡ window buf start n ++ (get_or buf ((start + n) % size) d ∷ [])
  window-snoc buf start zero = ap (λ (k : ℕ). get_or buf (k % size) d ∷ []) (omega arith)
  window-snoc buf start (suc n) =
      ap (λ t. get_or buf (start % size) d ∷ t)
        (window-snoc buf (start + 1) n
          ∙ ap (λ (k : ℕ). window buf (start + 1) n ++ (get_or buf (k % size) d ∷ []))
              (omega arith))

  -- The window depends on its start modulo the size.
  pub window-congr :
      (buf : List A) (s t n : ℕ) → s % size ≡ t % size → window buf s n ≡ window buf t n
  window-congr buf s t zero e = refl
  window-congr buf s t (suc n) e =
      ap₂ ◌∷◌ (ap (λ k. get_or buf k d) e)
        (window-congr buf (s + 1) (t + 1) n (mod-add_congr size s t 1 e))

  -- A write outside the window is not seen in it.
  pub window-set_outside :
      (buf : List A) (start n p : ℕ) (x : A)
      → ((i : ℕ) → i < n → (start + i) % size ≢ p)
      → window (set buf p x) start n ≡ window buf start n
  window-set_outside buf start zero p x h = refl
  window-set_outside buf start (suc n) p x h =
      ap₂ ◌∷◌
        (get_or-set_ne buf p (start % size) x d
          (λ e. h 0 (omega arith) (ap (λ (k : ℕ). k % size) (omega arith) ∙ sym e)))
        (window-set_outside buf (start + 1) n p x
          (λ i lt e. h (suc i) (omega arith) (ap (λ (k : ℕ). k % size) (omega arith) ∙ e)))

  -- A write just past a window that leaves a slot free extends it.
  pub window-push :
      (buf : List A) (start n p : ℕ) (x : A)
      → n < size
      → size ≤ length buf
      → p ≡ (start + n) % size
      → window (set buf p x) start (suc n) ≡ window buf start n ++ (x ∷ [])
  window-push buf start n p x free fits e =
      window-snoc (set buf p x) start n
      ∙ ap₂ (λ l y. l ++ (y ∷ []))
          (window-set_outside buf start n p x (λ i lt q. ahead i lt (q ∙ e)))
          (rw (← e) (get_or-set_self buf p x d (omega arith)))
    where
      ahead : (i : ℕ) → i < n → (start + i) % size ≢ (start + n) % size
      ahead i lt q =
          mod-add-ne size (start + i) (n - i) (omega arith) (omega arith)
            (ap (λ (k : ℕ). k % size) (omega arith) ∙ sym q)

-- The last `n` entries of a list.
abbrev pub last_of {ℓ} : {A : Type ℓ} → ℕ → List A → List A
last_of n xs = drop (length xs - n) xs

-- What a log of `size` slots holds: its last `count` entries, oldest first.
abbrev pub log_view {ℓ} : {A : Type ℓ} → A → ℕ → List A → ℕ → ℕ → List A
log_view d size buf head count = window d size buf (head + size - count) count

-- Where the writer goes next, and where the log begins then.
next_start :
    (size head count : ℕ)
    → head < size
    → count < size
    → ((head + 1) % size + size - (count + 1)) % size ≡ (head + size - count) % size
next_start size head count below room = elim (dec_lt (head + 1) size) [
  | yes p ↦ ap (λ (k : ℕ). k % size) (omega (arith, mod-eq_of_lt p))
  | no p ↦
      ap (λ (k : ℕ). k % size)
        (omega (
          arith,
          mod-eq-sub-mod {n = head + 1} {m = size} (omega arith),
          mod-eq_of_lt {n = head + 1 - size} {m = size} (omega arith),
        ))
      ∙ sym (add-mod_right (size - (count + 1)) size)
      ∙ ap (λ (k : ℕ). k % size) (omega arith)
]

module _ {ℓ} {A : Type ℓ} (d : A) (size : ℕ) (buf : List A) (head : ℕ) (x : A) (below : head < size)
    (fits : size ≤ length buf) where
  -- A log that is not full grows by the new entry.
  log_view-push_room :
      (count : ℕ)
      → count < size
      → log_view d size (set buf head x) ((head + 1) % size) (count + 1)
        ≡ log_view d size buf head count ++ (x ∷ [])
  log_view-push_room count room =
      ap (λ (k : ℕ). window d size (set buf head x) ((head + 1) % size + size - (count + 1)) k)
        {y = suc count} (omega arith)
      ∙ window-congr d size (set buf head x) _ _ (suc count) (next_start size head count below room)
      ∙ window-push d size buf (head + size - count) count head x room fits (
          sym
            (ap (λ (k : ℕ). k % size) (omega arith) ∙ add-mod_right head size ∙ mod-eq_of_lt below))

  -- A full log drops its oldest entry.
  log_view-push_full :
      log_view d size (set buf head x) ((head + 1) % size) size
      ≡ drop 1 (log_view d size buf head size) ++ (x ∷ [])
  log_view-push_full =
      window-congr d size (set buf head x) ((head + 1) % size + size - size) (head + 1) size (
        ap (λ (k : ℕ). k % size) (omega arith)
        ∙ mod-add-mod (head + 1) size 0
        ∙ ap (λ (k : ℕ). k % size) (omega arith))
      ∙ ap (window d size (set buf head x) (head + 1)) full
      ∙ window-push d size buf (head + 1) (size - 1) head x (omega arith) fits (
          sym
            (ap (λ (k : ℕ). k % size) (omega arith) ∙ add-mod_right head size ∙ mod-eq_of_lt below))
      ∙ ap (λ l. l ++ (x ∷ [])) (sym dropped)
    where
      full : size ≡ suc (size - 1)
      full = omega arith

      dropped : drop 1 (log_view d size buf head size) ≡ window d size buf (head + 1) (size - 1)
      dropped =
          ap (λ k. drop 1 (window d size buf (head + size - size) k)) full
          ∙ ap (λ k. window d size buf k (size - 1)) (omega arith)

  -- Either way the log holds the last `size` entries of what it held and the new one.
  pub log_view-push :
      (count count' : ℕ)
      → count ≤ size
      → count' ≡ min (count + 1) size
      → log_view d size (set buf head x) ((head + 1) % size) count'
        ≡ last_of size (log_view d size buf head count ++ (x ∷ []))
  log_view-push count count' most e = elim (dec_lt count size) [
    | yes p ↦
        ap (log_view d size (set buf head x) ((head + 1) % size)) {y = count + 1} (omega arith)
        ∙ log_view-push_room count p
        ∙ ap (λ k. drop k (log_view d size buf head count ++ (x ∷ []))) {x = 0}
            (omega (arith, grown count))
    | no p ↦
        ap (log_view d size (set buf head x) ((head + 1) % size)) {y = size} (omega arith)
        ∙ log_view-push_full
        ∙ sym (
            drop-append_of_le 1 (log_view d size buf head size) (x ∷ [])
              (omega (arith, length-window d size buf (head + size - size) size)))
        ∙ ap (λ k. drop k (log_view d size buf head size ++ (x ∷ []))) {x = 1}
            {y = length (log_view d size buf head size ++ (x ∷ [])) - size}
            (omega (arith, grown size))
        ∙ ap (λ k. last_of size (log_view d size buf head k ++ (x ∷ []))) {x = size} (omega arith)
  ]
    where
      grown : (k : ℕ) → length (log_view d size buf head k ++ (x ∷ [])) ≡ k + 1
      grown k = omega (
        arith,
        length-append (log_view d size buf head k) (x ∷ []),
        length-window d size buf (head + size - k) k,
      )

-- The same, for a writer that computes its slot, the next head and the count on words.
pub log_view-step {ℓ} :
    {A : Type ℓ} (d : A) (size : ℕ) (buf : List A) (head count slot head' count' : ℕ) (x : A)
    → head < size
    → size ≤ length buf
    → count ≤ size
    → slot ≡ head
    → head' ≡ (head + 1) % size
    → count' ≡ min (count + 1) size
    → log_view d size (set buf slot x) head' count'
      ≡ last_of size (log_view d size buf head count ++ (x ∷ []))
log_view-step d size buf head count slot head' count' x below fits most at_head moved grown =
    rw (at_head, moved) (log_view-push d size buf head x below fits count count' most grown)

-- Keeping the last `n` twice is keeping them once.
pub last_of-last_of {ℓ} :
    {A : Type ℓ} (n : ℕ) (xs ys : List A) → last_of n (last_of n xs ++ ys) ≡ last_of n (xs ++ ys)
last_of-last_of n xs ys =
    ap (λ l. last_of n l) (sym (drop-append_of_le (length xs - n) xs ys (omega arith)))
    ∙ drop-drop (length xs - n) _ (xs ++ ys)
    ∙ ap (λ k. drop k (xs ++ ys))
        (omega (arith, length-append xs ys, length-drop (length xs - n) (xs ++ ys)))

-- The last `n` entries of a list are `n` at most.
pub length-last_of {ℓ} :
    {A : Type ℓ} (n : ℕ) (xs : List A) → length (last_of n xs) ≡ min n (length xs)
length-last_of n xs = omega (arith, length-drop (length xs - n) xs)

pub last_of_short {ℓ} : {A : Type ℓ} (n : ℕ) (xs : List A) → length xs ≤ n → last_of n xs ≡ xs
last_of_short n xs h = ap (λ k. drop k xs) {y = 0} (omega arith)
