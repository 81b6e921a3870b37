-- ===== src/Uart/Wire.antt =====
-- shared/uart.c: what the registers see of a text.
use mathlib.Core.List.{append_assoc, append-nil}
use sg2002_kraken.Hex
use sg2002_kraken.Base.{
  ℕ, zero, suc, ◌+◌, ◌≡◌, refl, sym, ap, ◌∙◌, ◌⊎◌, inl, inr, List, [], ◌∷◌, ◌++◌, Option, none,
  some, true, Bool-cases, ◌==◌, if◌then◌else◌, arith, bit, bit_and, bit_and_pow, u32, ◌>>>◌,
}
use sg2002_kraken.Mmio.{Bus, Access, read, write, recorded}
use sg2002_kraken.Console
use sg2002_kraken.Uart.{
  uart0_base, uart_thr, uart_lsr, uart_lsr_thre, await_thre, uart_putc, uart_puts, puthex_digits,
  uart_puthex, uart_puthex64,
}

-- The line status shows an empty holding register, bit 5, within `n` polls.
abbrev pub DrainsWithin : (bus : Bus) → ℕ → bus.Device → Type 0
DrainsWithin bus zero d = ⊥
DrainsWithin bus (suc n) d =
    let (v, d') = bus.load (uart0_base + uart_lsr) d in (bit v 5 ≡ 1) ⊎ DrainsWithin bus n d'

-- The characters that were written to the transmitter, the first one first.
unfoldable pub sent : List Access → List ℕ
sent [] = []
sent (read a v ∷ log) = sent log
sent (write a v ∷ log) = if a == uart0_base + uart_thr then sent log ++ (v ∷ []) else sent log

not_drained : {P : Type 0} (v : ℕ) → (bit_and v uart_lsr_thre == 0) ≡ true → (bit v 5 ≡ 1) ⊎ P → P
not_drained v e (inl b) = absurd (ground (arith, bit_and_pow 5 v))
not_drained v e (inr p) = p

abbrev pub Logged : Bus → Type 0
Logged bus = bus.Device × List Access

-- A call that ends, and that has sent the characters.
pub record Sends (bus : Bus) (call : Option (Logged bus)) (d : Logged bus) (cs : List ℕ)
    : Type 0 where
  pub after : Logged bus
  pub ends : call ≡ some after
  pub wire : sent (after.1) ≡ sent (d.1) ++ cs

await_thre_lem :
    (bus : Bus) (n : ℕ) (d : Logged bus)
    → DrainsWithin bus n (d.0)
    → Sends bus (await_thre (recorded bus) n d) d []
unfolding await_thre sent
await_thre_lem bus zero d h = absurd h
await_thre_lem bus (suc n) d h =
    let (v, d') = bus.load (uart0_base + uart_lsr) (d.0) in
    elim (Bool-cases (bit_and v uart_lsr_thre == 0)) [
      | inl e ↦
          let m =
            await_thre_lem bus n (d', read (uart0_base + uart_lsr) v ∷ d.1) (not_drained v e h) in
          rw (e, await_thre) (record { after = m.after; ends = m.ends; wire = m.wire })
      | inr e ↦
          rw (e, await_thre)
            (record { after = _; ends = refl; wire = sym (append-nil (sent (d.1))) })
    ]

-- One call behind another.
Sends-then :
    {bus : Bus} {call : Option (Logged bus)} {d : Logged bus} {cs ds : List ℕ}
    (next : Logged bus → Option (Logged bus))
    → Sends bus call d cs
    → ((d' : Logged bus) → Sends bus (next d') d' ds)
    → Sends bus (elim call [ none ↦ none | some d' ↦ next d' ]) d (cs ++ ds)
Sends-then {d = d} {cs} {ds} next h more =
    let m = more h.after in
    rw (h.ends) (record {
      after = m.after;
      ends = m.ends;
      wire = m.wire ∙ ap (λ l. l ++ ds) h.wire ∙ append_assoc (sent (d.1)) cs ds;
    })

module _ (bus : Bus) (fuel : ℕ) (drains : (d : bus.Device) → DrainsWithin bus fuel d) where
  uart_putc_lem :
      (c : ℕ) (d : Logged bus) → Sends bus (uart_putc (recorded bus) fuel c d) d (c ∷ [])
  unfolding uart_putc sent
  uart_putc_lem c d =
      Sends-then (λ d'. some ((recorded bus).store (uart0_base + uart_thr) c d'))
        (await_thre_lem bus fuel d (drains (d.0)))
        (λ d'. record { after = _; ends = refl; wire = refl })

  ended : (d : Logged bus) → Sends bus (some d) d []
  ended d = record { after = d; ends = refl; wire = sym (append-nil (sent (d.1))) }

  puthex_digits_lem :
      (n v : ℕ) (d : Logged bus)
      → Sends bus (puthex_digits (recorded bus) fuel n v d) d (Hex.puthex_from n v)
  unfolding puthex_digits Hex.puthex_from
  puthex_digits_lem zero v d = ended d
  puthex_digits_lem (suc n) v d =
      Sends-then (λ d'. puthex_digits (recorded bus) fuel n v d') (uart_putc_lem _ d)
        (λ d'. puthex_digits_lem n v d')

  uart_puthex_lem :
      (v : ℕ) (d : Logged bus)
      → Sends bus (uart_puthex (recorded bus) fuel v d) d (Hex.uart_puthex v)
  unfolding uart_puthex Hex.uart_puthex
  uart_puthex_lem v d = puthex_digits_lem 8 v d

  uart_puthex64_lem :
      (v : ℕ) (d : Logged bus)
      → Sends bus (uart_puthex64 (recorded bus) fuel v d) d (Hex.uart_puthex64 v)
  unfolding uart_puthex64 Hex.uart_puthex64
  uart_puthex64_lem v d =
      Sends-then (uart_puthex (recorded bus) fuel (u32 (bit_and v 0xffffffff)))
        (uart_puthex_lem (u32 (v >>> 32)) d) (uart_puthex_lem (u32 (bit_and v 0xffffffff)))

  uart_puts_lem :
      (cs : List ℕ) (d : Logged bus)
      → Sends bus (uart_puts (recorded bus) fuel cs d) d (Console.uart_puts cs)
  unfolding uart_puts Console.uart_puts
  uart_puts_lem [] d = ended d
  uart_puts_lem (c ∷ cs) d =
      let rest = λ (d₁ : Logged bus).
        Sends-then (uart_puts (recorded bus) fuel cs) (uart_putc_lem c d₁) (uart_puts_lem cs) in
      elim (Bool-cases (c == 10)) [
        | inl e ↦ rw (e, uart_puts) (Sends-then _ (uart_putc_lem 13 d) rest)
        | inr e ↦ rw (e, uart_puts) (rest d)
      ]

-- On any bus, if from every state of the device the transmitter is ready within `fuel` polls,
-- then each call ends, and what it writes to the transmitter, behind what was written before, is
-- the text with a carriage return before each line feed, the 8 digits of a word, or the 16 digits
-- of a double word.
pub uart_calls_lem :
    (bus : Bus) (fuel : ℕ)
    → ((d : bus.Device) → DrainsWithin bus fuel d)
    → (cs : List ℕ) (v w : ℕ) (d : Logged bus)
    → Sends bus (uart_puts (recorded bus) fuel cs d) d (Console.uart_puts cs)
      × Sends bus (uart_puthex (recorded bus) fuel v d) d (Hex.uart_puthex v)
      × Sends bus (uart_puthex64 (recorded bus) fuel w d) d (Hex.uart_puthex64 w)
uart_calls_lem bus fuel drains cs v w d = (
  uart_puts_lem bus fuel drains cs d,
  uart_puthex_lem bus fuel drains v d,
  uart_puthex64_lem bus fuel drains w d,
)
