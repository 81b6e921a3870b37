-- ===== src/Mmio.antt =====
-- The accesses of the C code to registers, `MMIO32(a)`. The registers are hardware, so what a bus
-- does is a parameter.
use sg2002_kraken.Base.{ℕ, ◌==◌, if◌then◌else◌, set_bits, clear_bits, List, ◌∷◌}

-- `MMIO32(a)` read, and `MMIO32(a) = v`.
pub record Bus : Type 1 where
  pub Device : Type 0
  pub load : ℕ → Device → ℕ × Device
  pub store : (a v : ℕ) → Device → Device

-- A register file: each address holds a word, and a store latches what `latch` makes of the value.
abbrev pub registers : (latch : ℕ → ℕ → ℕ) → Bus
registers latch = record {
  Device = ℕ → ℕ;
  load = λ a d. (d a, d);
  store = λ a v d x. if x == a then latch a v else d x;
}

-- Registers that keep what is written.
abbrev pub register_file : Bus
register_file = registers (λ a v. v)

-- An access to a register, with the value that was stored or loaded.
pub data Access : Type 0 where
  read : (a v : ℕ) → Access
  write : (a v : ℕ) → Access

-- Any bus, with the accesses so far, the last one first.
abbrev pub recorded : Bus → Bus
recorded bus = record {
  Device = bus.Device × List Access;
  load = λ a d. let (v, d') = bus.load a (d.0) in (v, (d', read a v ∷ d.1));
  store = λ a v d. (bus.store a v (d.0), write a v ∷ d.1);
}

module _ (bus : Bus) where
  open bus use {Device, load, store}

  -- `MMIO32(a) |= mask` and `MMIO32(a) &= ~mask`.
  abbrev pub store_set : (a mask : ℕ) → Device → Device
  store_set a mask d = let (v, d') = load a d in store a (set_bits v mask) d'

  abbrev pub store_clear : (a mask : ℕ) → Device → Device
  store_clear a mask d = let (v, d') = load a d in store a (clear_bits v mask) d'
