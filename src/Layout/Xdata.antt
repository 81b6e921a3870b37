-- ===== src/Layout/Xdata.antt =====
-- watch8051/watchdog.c: the variables of the 8051, which lie on the control page.
use Prim.Native.String.{String}
use sg2002_kraken.Base.{ℕ, ◌≡◌, refl, false, some, arith, eq_text, subst}
use sg2002_kraken.Console.{codes}
use sg2002_kraken.Layout.{word, field_at, shared_ctrl_fields}
use sg2002_kraken.Layout.Apart.{Aligned, AreApart, field_at-AreApart}

-- The `__xdata __at` variables.
pub data XdataVar : Type 0 where
  system_stage system_flags reset_reason kernel_heartbeat worker_heartbeat worker_state
        kernel_pet_seq watchdog_last_kernel_seq watchdog_last_worker_seq watchdog_pet_count :
      XdataVar

abbrev pub xdata_name : XdataVar → String
xdata_name system_stage = "system_stage"
xdata_name system_flags = "system_flags"
xdata_name reset_reason = "reset_reason"
xdata_name kernel_heartbeat = "kernel_heartbeat"
xdata_name worker_heartbeat = "worker_heartbeat"
xdata_name worker_state = "worker_state"
xdata_name kernel_pet_seq = "kernel_pet_seq"
xdata_name watchdog_last_kernel_seq = "watchdog_last_kernel_seq"
xdata_name watchdog_last_worker_seq = "watchdog_last_worker_seq"
xdata_name watchdog_pet_count = "watchdog_pet_count"

-- Where they lie in the memory that the 8051 sees, whose start is mapped to that of the page.
abbrev pub xdata_addr : XdataVar → ℕ
xdata_addr system_stage = 0x0008
xdata_addr system_flags = 0x000c
xdata_addr reset_reason = 0x0010
xdata_addr kernel_heartbeat = 0x0020
xdata_addr worker_heartbeat = 0x0024
xdata_addr worker_state = 0x0028
xdata_addr kernel_pet_seq = 0x0030
xdata_addr watchdog_last_kernel_seq = 0x0034
xdata_addr watchdog_last_worker_seq = 0x0038
xdata_addr watchdog_pet_count = 0x003c

shared_ctrl_fields-Aligned : Aligned shared_ctrl_fields
unfolding shared_ctrl_fields
shared_ctrl_fields-Aligned = omega arith

xdata_place :
    (v : XdataVar)
    → field_at (xdata_name v) shared_ctrl_fields 0 ≡ some (xdata_addr v, word (xdata_name v))
unfolding field_at shared_ctrl_fields eq_text
xdata_place system_stage = refl
xdata_place system_flags = refl
xdata_place reset_reason = refl
xdata_place kernel_heartbeat = refl
xdata_place worker_heartbeat = refl
xdata_place worker_state = refl
xdata_place kernel_pet_seq = refl
xdata_place watchdog_last_kernel_seq = refl
xdata_place watchdog_last_worker_seq = refl
xdata_place watchdog_pet_count = refl

-- A variable of the 8051 is the word of its name on the control page, and shares no byte with any
-- other field of the page.
pub xdata_lem :
    (v : XdataVar) (other : String)
    → eq_text (codes (xdata_name v)) (codes other) ≡ false
    → (field_at (xdata_name v) shared_ctrl_fields 0 ≡ some (xdata_addr v, word (xdata_name v)))
      × AreApart (some (xdata_addr v, word (xdata_name v))) (field_at other shared_ctrl_fields 0)
xdata_lem v other ne = (
  xdata_place v,
  subst (λ r. AreApart r (field_at other shared_ctrl_fields 0)) (xdata_place v)
      (field_at-AreApart (xdata_name v) other shared_ctrl_fields 0 shared_ctrl_fields-Aligned ne),
)
