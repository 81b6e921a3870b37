-- ===== src/Platform/Blink.antt =====
-- The LED of a panic, of shared/platform.c.
use sg2002_kraken.Base.{
  ℕ, zero, suc, ◌+◌, ◌%◌, ◌≡◌, ap, ◌∙◌, true, false, arith, bit, bit-bit_and, bit-bit_xor, bit-le,
  not32, ones_bits, bit-pow_self,
}
use sg2002_kraken.Mmio.{register_file}
use sg2002_kraken.Kraken.Regs.{gpio_swporta_dr}
use sg2002_kraken.Kraken.Options.{Options}
use sg2002_kraken.Platform.Led.{if_true}
use sg2002_kraken.Platform.{
  sg2002_user_led_init, sg2002_user_led_set, sg2002_user_led_toggle, panic_rounds,
  sg2002_user_led_panic_loop,
}

-- Whether the LED shines: bit 14 of the data register.
abbrev pub led : (ℕ → ℕ) → ℕ
led d = bit (d gpio_swporta_dr) 14

led-toggle :
    (o : Options) (d : ℕ → ℕ)
    → o.nanow_user_led ≡ true
    → led (sg2002_user_led_toggle register_file o d) ≡ (led d + 1) % 2
unfolding sg2002_user_led_toggle sg2002_user_led_init
led-toggle o d e = rw e (omega (arith, bit-bit_xor 14 (d gpio_swporta_dr) 16384, bit-pow_self 14))

led-panic_rounds :
    (o : Options) (n : ℕ) (d : ℕ → ℕ)
    → o.nanow_user_led ≡ true
    → led (panic_rounds register_file o n d) ≡ (led d + n) % 2
unfolding panic_rounds
led-panic_rounds o zero d e = omega (arith, bit-le 14 (d gpio_swporta_dr))
led-panic_rounds o (suc n) d e =
    let toggled = sg2002_user_led_toggle register_file o d in
    ap (λ (r : ℕ → ℕ). led (panic_rounds register_file o n r)) (if_true d e)
    ∙ omega (arith, led-panic_rounds o n toggled e, led-toggle o d e)

led-off :
    (o : Options) (d : ℕ → ℕ)
    → o.nanow_user_led ≡ true
    → led (sg2002_user_led_set register_file o false d) ≡ 0
unfolding sg2002_user_led_set sg2002_user_led_init
led-off o d e = rw e (
    omega (
      arith,
      bit-bit_and 14 (d gpio_swporta_dr) (not32 16384),
      bit-bit_xor 14 16384 0xffffffff,
      ones_bits 14 (omega arith),
      bit-le 14 (d gpio_swporta_dr),
      bit-pow_self 14,
    ))

-- On registers that keep what is written, and with the LED built in, a panic blinks for ever: the
-- LED is on after the odd rounds of the loop and off after the even ones, whatever it was before.
pub panic_loop_lem :
    (o : Options) (n : ℕ) (d : ℕ → ℕ)
    → o.nanow_user_led ≡ true
    → led (sg2002_user_led_panic_loop register_file o n d) ≡ n % 2
unfolding sg2002_user_led_panic_loop
panic_loop_lem o n d e =
    let off = sg2002_user_led_set register_file o false d in
    ap (λ (r : ℕ → ℕ). led (panic_rounds register_file o n r)) (if_true d e)
    ∙ omega (arith, led-panic_rounds o n off e, led-off o d e)
