-- ===== src/Platform/Led.antt =====
-- The LED of shared/platform.c: how often it lights up.
use sg2002_kraken.Base.{
  ℕ, zero, suc, ◌+◌, ◌%◌, ◌<◌, ◌≡◌, ◌≢◌, refl, ap, ◌∙◌, Bool, true, false, List, [], ◌∷◌, arith,
  ◌==◌, if◌then◌else◌, bit, bit-bit_or, bit-bit_and, bit-bit_xor, bit-le, bit_and, set_bits,
  clear_bits, not32, ones_bits, ◌&&◌, ◌||◌, not, bit-pow_self, bit_and_mask,
}
use sg2002_kraken.Mmio.{Bus, Access, read, write, recorded}
use sg2002_kraken.Kraken.Regs.{gpio_swporta_dr}
use sg2002_kraken.Kraken.Options.{Options}
use sg2002_kraken.Kraken.Structs.{PersistLog}
use sg2002_kraken.Persist.{persist_valid}
use sg2002_kraken.Platform.{
  user_led_mask, blink_source, blink_detail, sg2002_user_led_init, sg2002_user_led_set, pulse,
  sg2002_user_led_blink, user_led_pulse_group, sg2002_user_led_show_persist_summary,
}

-- How often the accesses switch the LED on: writes of the data register with the LED's bit set.
pub lit : List Access → ℕ
lit [] = 0
lit (read a v ∷ log) = lit log
lit (write a v ∷ log) = if a == gpio_swporta_dr && bit v 14 == 1 then lit log + 1 else lit log

on_bit : (v : ℕ) → bit (set_bits v user_led_mask) 14 ≡ 1
on_bit v = omega (arith, bit-bit_or 14 v 16384, bit-le 14 v, bit-pow_self 14)

off_bit : (v : ℕ) → bit (clear_bits v user_led_mask) 14 ≡ 0
off_bit v = omega (
  arith,
  bit-bit_and 14 v (not32 16384),
  bit-bit_xor 14 16384 0xffffffff,
  ones_bits 14 (omega arith),
  bit-le 14 v,
  bit-pow_self 14,
)

pub if_true {ℓ} : {A : Type ℓ} {b : Bool} {x : A} (y : A) → b ≡ true → (if b then x else y) ≡ x
if_true y e = rw e refl

if_false {ℓ} : {A : Type ℓ} {b : Bool} (x : A) {y : A} → b ≡ false → (if b then x else y) ≡ y
if_false x e = rw e refl

module _ (bus : Bus) (o : Options) where
  abbrev pub Logged : Type 0
  Logged = bus.Device × List Access

  abbrev lit_of : Logged → ℕ
  lit_of d = lit (d.1)

  lit-led_on :
      (d : Logged)
      → o.nanow_user_led ≡ true
      → lit_of (sg2002_user_led_set (recorded bus) o true d) ≡ lit_of d + 1
  unfolding sg2002_user_led_set sg2002_user_led_init lit
  lit-led_on d e = rw (e, on_bit) refl

  lit-led_off :
      (d : Logged)
      → o.nanow_user_led ≡ true
      → lit_of (sg2002_user_led_set (recorded bus) o false d) ≡ lit_of d
  unfolding sg2002_user_led_set sg2002_user_led_init lit
  lit-led_off d e = rw (e, off_bit) refl

  lit-pulse :
      (n : ℕ) (d : Logged)
      → o.nanow_user_led ≡ true
      → lit_of (pulse (recorded bus) o n d) ≡ lit_of d + n
  unfolding pulse
  lit-pulse zero d e = omega arith
  lit-pulse (suc n) d e =
      let on = sg2002_user_led_set (recorded bus) o true d in
      let off = sg2002_user_led_set (recorded bus) o false on in
      omega (arith, lit-pulse n off e, lit-led_off on e, lit-led_on d e)

  lit-pulse_group :
      (n : ℕ) (d : Logged)
      → o.nanow_user_led ≡ true
      → 0 < n
      → lit_of (user_led_pulse_group (recorded bus) o n d) ≡ lit_of d + n
  unfolding user_led_pulse_group
  lit-pulse_group n d e pos =
      ap (λ (r : Logged). lit (r.1)) (if_true d e)
      ∙ ap (λ k. lit_of (pulse (recorded bus) o k d)) {x = if n == 0 then 1 else n} {y = n}
          (ground arith)
      ∙ lit-pulse n d e

  lit-blink :
      (n : ℕ) (d : Logged)
      → o.nanow_user_led ≡ true
      → lit_of (sg2002_user_led_blink (recorded bus) o n d) ≡ lit_of d + n
  unfolding sg2002_user_led_blink
  lit-blink n d e =
      ap (λ (r : Logged). lit (r.1)) (if_true d e)
      ∙ lit-pulse n _ e
      ∙ ap (λ (k : ℕ). k + n) (lit-led_off d e)

  -- The summary of a valid log
  pub user_led_show_persist_summary_lem :
      (log : PersistLog) (d : Logged)
      → o.nanow_user_led ≡ true
      → persist_valid log ≡ true
      → log.last_boot_count ≢ 0
      → lit_of (sg2002_user_led_show_persist_summary (recorded bus) o log d)
        ≡ lit_of d
          + 3
          + (log.last_stage % 16 + 1)
          + (blink_source log % 16 + 1)
          + (blink_detail log % 16 + 1)
  unfolding sg2002_user_led_show_persist_summary
  user_led_show_persist_summary_lem log d e valid booted =
      let d₁ = user_led_pulse_group (recorded bus) o 3 d in
      let d₂ = user_led_pulse_group (recorded bus) o (bit_and log.last_stage 0x0f + 1) d₁ in
      let d₃ = user_led_pulse_group (recorded bus) o (bit_and (blink_source log) 0x0f + 1) d₂ in
      ap (λ (r : Logged). lit (r.1)) (if_false d skipped)
      ∙ omega (
        arith,
        lit-pulse_group 3 d e (omega arith),
        lit-pulse_group (bit_and log.last_stage 0x0f + 1) d₁ e (omega arith),
        lit-pulse_group (bit_and (blink_source log) 0x0f + 1) d₂ e (omega arith),
        lit-pulse_group (bit_and (blink_detail log) 0x0f + 1) d₃ e (omega arith),
        bit_and_mask 4 log.last_stage,
        bit_and_mask 4 (blink_source log),
        bit_and_mask 4 (blink_detail log),
      )
    where
      skipped :
          (not o.nanow_user_led || not (persist_valid log) || log.last_boot_count == 0) ≡ false
      skipped = ground (arith, e, valid, booted)
