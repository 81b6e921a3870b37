-- ===== src/Platform/Tests.antt =====
-- Accesses to concrete registers.
use sg2002_kraken.Base.{ℕ, ◌≡◌, refl, true, List, [], ◌∷◌}
use sg2002_kraken.Mmio.{register_file, Access, write, recorded}
use sg2002_kraken.Kraken.Config.{fw8051_ddr_addr}
use sg2002_kraken.Kraken.Regs.{rtcsys_wdt_crr, wdt_kick_key}
use sg2002_kraken.Kraken.Options.{default_options}
use sg2002_kraken.Platform.{sg2002_boot_8051, sg2002_user_led_panic_loop}
use sg2002_kraken.Platform.Blink.{led, panic_loop_lem}
use sg2002_kraken.Platform.Boot8051.{reset_line, windows_held, sg2002_boot_8051_lem}

-- Registers that hold zeros, before any access.
abbrev fresh : (ℕ → ℕ) × List Access
fresh = ((λ a. 0), [])

nothing_done : windows_held (fresh.1) ≡ true
unfolding windows_held
nothing_done = refl

boot_8051_example :
    let log = (sg2002_boot_8051 (recorded register_file) fw8051_ddr_addr fresh).1 in
    (windows_held log ≡ true)
    × (reset_line log ≡ 1)
    × ((earlier : List Access) × (log ≡ write rtcsys_wdt_crr wdt_kick_key ∷ earlier))
boot_8051_example = sg2002_boot_8051_lem register_file fw8051_ddr_addr fresh nothing_done

panic_loop_example :
    led (sg2002_user_led_panic_loop register_file default_options 7 (λ a. 0xffffffff)) ≡ 1
panic_loop_example = panic_loop_lem default_options 7 (λ a. 0xffffffff) refl
