-- ===== src/Kraken/Cmd.antt =====
-- The commands of the kernel to the worker and to the 8051. (`enum cmd_id` of kraken.h)
use Prim.Native.Nat.{ℕ}

abbrev pub none : ℕ
none = 0

abbrev pub boot : ℕ
boot = 1

abbrev pub run_job : ℕ
run_job = 2

abbrev pub cancel : ℕ
cancel = 3

abbrev pub stop : ℕ
stop = 4

abbrev pub pet_8051 : ℕ
pet_8051 = 5

abbrev pub panic : ℕ
panic = 6
