-- ===== src/UsbDescriptors/Blocks.antt =====
-- shared/usb_descriptors.c: the configuration as the block of descriptors that a host walks.
use sg2002_kraken.Base.{
  ℕ, zero, suc, ◌+◌, ◌-◌, ◌*◌, List, [], ◌∷◌, Option, none, some, length, get_or, drop, ltb, ◌&&◌,
  true, false,
}

-- The types of the descriptors of a block, each as long as its first byte says; `none` where a length
-- does not fit.
unfoldable pub walk : (fuel : ℕ) → List ℕ → Option (List ℕ)
walk fuel [] = some []
walk fuel (n ∷ []) = none
walk zero (n ∷ kind ∷ rest) = none
walk (suc fuel) (n ∷ kind ∷ rest) = elim (ltb 1 n && ltb n (length rest + 3)) [
  | true ↦ elim (walk fuel (drop (n - 2) rest)) [ none ↦ none | some kinds ↦ some (kind ∷ kinds) ]
  | false ↦ none
]

-- The field wTotalLength of a configuration descriptor, which says how many bytes a host takes.
abbrev pub total_length : List ℕ → ℕ
total_length d = get_or d 2 0 + 256 * get_or d 3 0
