-- ===== src/Boot/Tests.antt =====
-- Runs of the bootloader.
use sg2002_kraken.Base.{[], true, false}
use sg2002_kraken.Mmio.{register_file}
use sg2002_kraken.Kraken.Options.{default_options}
use sg2002_kraken.Ctl.Tests.{blank, blank-IsPage}
use sg2002_kraken.UsbSerial.{Cdc}
use sg2002_kraken.Kernel.{Machine, running, and_then}
use sg2002_kraken.Kernel.Main.{kernel_entry}
use sg2002_kraken.Kernel.Editor.{no_line}
use sg2002_kraken.Kernel.Invariant.{AllEnds, HasLogs}
use sg2002_kraken.Boot.{bootloader_main, jump_args}
use sg2002_kraken.Boot.Chain.{IsEntered, boots_after, boot_chain_lem}
use sg2002_kraken.Boot.Handoff.{NoKernel}

-- A host that is not there.
abbrev no_host : Cdc
no_host = record {
  Device = Unit;
  start = λ d. (true, d);
  inited = λ d. true;
  task = λ d. ([], d);
  connected = λ d. false;
  available = λ d. 0;
  read = λ n d. ([], d);
  write = λ bytes d. (0, d);
  write_flush = λ d. d;
}

-- Every word of memory is 1, so both images seem to be there.
abbrev board : Machine register_file no_host
board = record {
  shared = blank;
  mem = λ a. 1;
  device = λ a. 0;
  host = tt;
  uart = [];
  line = no_line;
}

boot_chain_example :
    AllEnds
      (λ t. NoKernel t × HasLogs t)
      (λ (k : Machine register_file no_host).
        IsEntered (boots_after blank) 1 0x81000000 (k.shared.ctl))
      (and_then
        (bootloader_main default_options 1 0x81000000 board)
        λ t. running (kernel_entry default_options ((jump_args t).0) ((jump_args t).1) t))
boot_chain_example =
    boot_chain_lem register_file no_host default_options 1 0x81000000 board blank-IsPage
