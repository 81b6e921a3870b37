-- ===== src/Watchdog.antt =====
-- The 8051 firmware, watch8051/watchdog.c. Its XDATA variables are the fields of the control page
-- at the same offsets. One round of the main loop is one step; what the other cores write to the
-- page between two rounds is the argument `env` of `run`.
mod Tests
pub mod Rounds
use sg2002_kraken.Base.{
  ℕ, zero, suc, ◌+◌, Bool, ◌&&◌, ltb, ◌==◌, ◌!=◌, if◌then◌else◌, u16, u32, set_bits,
}
use sg2002_kraken.Kraken.Structs.{SharedCtrl}

-- The local variables of `main`.
pub record Watch : Type 0 where
  pub last_pet : ℕ
  pub last_worker : ℕ
  pub kernel_timeout : ℕ
  pub worker_timeout : ℕ

-- In the main loop, or in the endless loop of `do_signal_reset`.
pub data Phase : Type 0 where
  watching : Watch → Phase
  signalled : Phase

abbrev pub State : Type 0
State = Phase × SharedCtrl

abbrev pub timeout_rounds : ℕ
timeout_rounds = 60000

abbrev pub core_running : ℕ
core_running = 3

abbrev pub kernel_reason : ℕ
kernel_reason = 0x80510001

abbrev pub worker_reason : ℕ
worker_reason = 0x80510002

pub pet_hw : SharedCtrl → SharedCtrl
pet_hw ctl = record ctl { watchdog_pet_count = u32 (ctl.watchdog_pet_count + 1) }

-- The part of `do_signal_reset` before its endless loop.
pub do_signal_reset : ℕ → SharedCtrl → State
do_signal_reset reason ctl = (
  signalled,
  record ctl { reset_reason = reason; system_flags = set_bits ctl.system_flags 0x80000000 },
)

pub start : SharedCtrl → State
start ctl = (
  watching (record {
    last_pet = ctl.kernel_pet_seq;
    last_worker = ctl.worker_heartbeat;
    kernel_timeout = 0;
    worker_timeout = 0;
  }),
  record ctl {
    watchdog_last_kernel_seq = ctl.kernel_pet_seq;
    watchdog_last_worker_seq = ctl.worker_heartbeat;
    watchdog_pet_count = 0;
  },
)

-- The second test of the loop's body.
pub check_worker : Watch → SharedCtrl → State
unfolding do_signal_reset
check_worker w ctl =
    if ctl.worker_heartbeat != w.last_worker
    then (
      watching (record w { last_worker = ctl.worker_heartbeat; worker_timeout = 0 }),
      record ctl { watchdog_last_worker_seq = ctl.worker_heartbeat },
    )
    else if ctl.worker_state == core_running
    then if ltb timeout_rounds (u16 (w.worker_timeout + 1))
      then do_signal_reset worker_reason ctl
      else (watching (record w { worker_timeout = u16 (w.worker_timeout + 1) }), ctl)
    else (watching w, ctl)

-- The body of the loop.
pub check_kernel : Watch → SharedCtrl → State
unfolding check_worker do_signal_reset pet_hw
check_kernel w ctl =
    if ctl.kernel_pet_seq != w.last_pet
    then check_worker (record w { last_pet = ctl.kernel_pet_seq; kernel_timeout = 0 })
        (pet_hw (record ctl { watchdog_last_kernel_seq = ctl.kernel_pet_seq }))
    else if ltb timeout_rounds (u16 (w.kernel_timeout + 1))
    then do_signal_reset kernel_reason ctl
    else check_worker (record w { kernel_timeout = u16 (w.kernel_timeout + 1) }) ctl

-- One round, of either loop.
unfoldable pub round : Phase → SharedCtrl → State
unfolding check_kernel pet_hw
round (watching w) ctl = check_kernel w ctl
round signalled ctl = (signalled, pet_hw ctl)

-- Rounds `i`, `i + 1`, ..., `i + n - 1`, with the writes of the other cores before each.
pub run : (ℕ → SharedCtrl → SharedCtrl) → ℕ → ℕ → Phase → SharedCtrl → State
run env zero i p ctl = (p, ctl)
run env (suc n) i p ctl = let (p', ctl') = round p (env i ctl) in run env n (i + 1) p' ctl'
