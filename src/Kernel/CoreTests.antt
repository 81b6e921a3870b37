-- ===== src/Kernel/CoreTests.antt =====
-- Runs of the kernel with the worker.
use sg2002_kraken.Base.{
  ℕ, ◌+◌, ◌≡◌, ◌%◌, ◌^◌, ◌<◌, ◌==◌, if◌then◌else◌, false, refl, true, bit, bit_xor, arith,
}
use sg2002_kraken.Mmio.{register_file}
use sg2002_kraken.Kraken.Config.{magic, version}
use sg2002_kraken.Kraken.Cmd
use sg2002_kraken.Kraken.CoreState
use sg2002_kraken.Kraken.FaultSource
use sg2002_kraken.Kraken.Options.{default_options}
use sg2002_kraken.Kraken.Structs.{Shared}
use sg2002_kraken.Kernel.Main.{kernel_boot}
use sg2002_kraken.Kernel.Offer.{IsOffered, NoWorker}
use sg2002_kraken.Kernel.Booted.{IsRunning, ServesBoot, kernel_boot_lem}
use sg2002_kraken.Ctl.{Csrs, ctl_valid}
use sg2002_kraken.TrapPanic.{kraken_trap_panic}
use sg2002_kraken.Kernel.{Machine}
use sg2002_kraken.Kernel.Editor.{Command}
use sg2002_kraken.Kernel.Commands.{run_command}
use sg2002_kraken.Kernel.Supervisor.{no_watch, supervisor_round}
use sg2002_kraken.Kernel.Invariant.{AllEnds}
use sg2002_kraken.Kernel.Restarts.{Panicked}
use sg2002_kraken.Kernel.Revive.{Revived}
use sg2002_kraken.Kernel.Handshake.{run_command_result}
use sg2002_kraken.Kernel.Trapped.{worker_trap_restarts}
use sg2002_kraken.Kernel.Tests.{host, machine, idle_cores}
use sg2002_kraken.Worker as Core
use sg2002_kraken.Worker.Job.{IsQuietAt}

-- A page that an image has set up.
abbrev booted : Machine register_file host
booted = record machine {
  shared = record (machine.shared) {
    ctl = record (machine.shared.ctl) { magic = magic; version = version };
  };
}

booted-valid : ctl_valid (booted.shared.ctl) ≡ true
unfolding ctl_valid
booted-valid = refl

no_flags : bit booted.shared.ctl.system_flags 31 ≡ 0
unfolding bit
no_flags = refl

abbrev trapped : Machine register_file host
trapped = record booted {
  shared = kraken_trap_panic default_options FaultSource.worker 2 0x80380010 0 0x1800 booted.shared;
}

worker_trap_example :
    (trapped.shared.ctl.worker_state ≡ CoreState.fault)
    × (trapped.shared.ctl.worker_restart_count ≡ booted.shared.ctl.worker_restart_count)
    × AllEnds Panicked
        (Revived trapped)
        (supervisor_round default_options idle_cores (no_watch, trapped))
worker_trap_example =
    worker_trap_restarts register_file host default_options idle_cores no_watch booted 2 0x80380010
      0 0x1800 (λ i s. refl) booted-valid no_flags

idle-IsQuietAt : (j : ℕ) → IsQuietAt idle_cores j
idle-IsQuietAt j = record {
  cmd = λ s. refl;
  arg0 = λ s. refl;
  beat = λ s. refl;
  result = λ s. refl;
}

run_command_example :
    let served = (Core.worker_round idle_cores (run_command Command.run machine).shared).1 in
    (served.ctl.worker_result ≡ bit_xor 49999 0x1234)
    × (served.ctl.worker_heartbeat ≡ (machine.shared.ctl.worker_heartbeat + 50001) % 2 ^ 32)
    × (served.ctl.worker_state ≡ CoreState.idle)
    × (served.ctl.worker_cmd ≡ Cmd.none)
    × (served.ctl.worker_cmd_ack ≡ served.ctl.kernel_cmd_seq)
run_command_example =
    run_command_result register_file host idle_cores machine idle-IsQuietAt (omega arith)

-- The worker runs its entry before the kernel's fourth look, and its image is there.
abbrev no_ids : Csrs
no_ids = record { mhartid = 1; mvendorid = 0x5b7; marchid = 0; mimpid = 0; misa = 0 }

abbrev starts_late : ℕ → Shared → Shared
starts_late j s = if j == 3 then Core.worker_entry no_ids s else s

abbrev with_image : Machine register_file host
with_image = record machine { mem = λ a. a % 251 }

quiet_before : (j : ℕ) (s : Shared) → j < 3 → IsOffered (s.ctl) → IsOffered ((starts_late j s).ctl)
quiet_before j s lt h = let early : (j == 3) ≡ false = ground arith in rw early h

kernel_boot_example :
    AllEnds NoWorker
      (λ (t : Machine register_file host). IsRunning t × ServesBoot idle_cores (t.shared))
      (kernel_boot default_options starts_late 0 0x81000000 with_image)
kernel_boot_example =
    kernel_boot_lem register_file host default_options no_ids starts_late idle_cores 3 0 0x81000000
      with_image quiet_before (λ s. refl) (omega arith)
