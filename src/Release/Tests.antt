-- ===== src/Release/Tests.antt =====
-- Releasing the worker core.
use sg2002_kraken.Base.{ℕ, ◌≡◌, ◌==◌, if◌then◌else◌}
use sg2002_kraken.Mmio.{registers}
use sg2002_kraken.Kraken.ReleaseStatus
use sg2002_kraken.Kraken.Options.{default_options}
use sg2002_kraken.Release.{bootaddr_hi, sg2002_release_worker_core}
use sg2002_kraken.Release.Status.{sg2002_release_worker_core_lem}

-- Registers that keep everything, and a register for the high word that stays 0.
abbrev keeps : ℕ → ℕ → ℕ
keeps a v = v

abbrev no_high : ℕ → ℕ → ℕ
no_high a v = if a == bootaddr_hi then 0 else v

abbrev reset_state : ℕ → ℕ
reset_state a = 0

release_example :
    (sg2002_release_worker_core (registers keeps) default_options 0x80380000 reset_state).0
    ≡ ReleaseStatus.ok
release_example = sg2002_release_worker_core_lem default_options keeps 0x80380000 reset_state

-- An entry above 4 GiB.
release_no_high_word :
    (sg2002_release_worker_core (registers no_high) default_options 0x180380000 reset_state).0
    ≡ ReleaseStatus.bootaddr_hi_mismatch
release_no_high_word =
    sg2002_release_worker_core_lem default_options no_high 0x180380000 reset_state
