-- ===== src/Ctl/Boot.antt =====
-- `ctl_init_defaults` and the platform errors of shared/shared_state.c.
use sg2002_kraken.Base.{
  ℕ, ◌+◌, ◌^◌, ◌≤◌, ◌<◌, ◌≡◌, refl, true, [], ◌∷◌, ◌++◌, arith, last_of, bit, bit-le, bit-bit_or,
  bit-bit_and, bit-bit_xor, ones_bits, not32, Bool-cases, inl, inr, ◌==◌, if◌then◌else◌,
}
use sg2002_kraken.Kraken.Config.{persist_log_capacity}
use sg2002_kraken.Kraken.Options.{Options}
use sg2002_kraken.Kraken.PersistKind
use sg2002_kraken.Kraken.Stage
use sg2002_kraken.Kraken.Structs.{SharedCtrl, Shared}
use sg2002_kraken.Persist.{Event, persist_note_previous_boot}
use sg2002_kraken.Persist.Ring.{
  IsPage, visible, last_seq, number_from, Appended, Appended-nil, Appended-one, Appended-trans,
}
use sg2002_kraken.Persist.Boot.{note_events, persist_note_previous_boot-Appended}
use sg2002_kraken.Ctl.{
  ctl_valid, next_boot_count, ctl_init_defaults, ctl_set_platform_error, ctl_clear_platform_error,
}
use sg2002_kraken.Ctl.Zero.{zero_faults, zero_traces}
use sg2002_kraken.Ctl.Logs.{IsShared, IsFaultLog, IsTraceLog}

-- The boot count is never 0, and it grows by one until it wraps.
pub next_boot_count_lem :
    (old : ℕ)
    → old < 2 ^ 32
    → (1 ≤ next_boot_count old)
      × (next_boot_count old < 2 ^ 32)
      × (old + 1 < 2 ^ 32 → next_boot_count old ≡ old + 1)
unfolding next_boot_count
next_boot_count_lem old h = ground arith

-- The first record of a boot.
abbrev pub boot_event : ℕ → Event
boot_event n = record {
  boot_count = n;
  kind = PersistKind.stage;
  source = 0;
  code = 0;
  arg0 = 0;
  arg1 = 0;
  stage = 0;
}

pub zero_faults-IsFaultLog : IsFaultLog zero_faults
zero_faults-IsFaultLog = record { slots = refl; head_in = omega arith; count_in = omega arith }

pub zero_traces-IsTraceLog : IsTraceLog zero_traces
zero_traces-IsTraceLog = record { slots = refl; head_in = omega arith; count_in = omega arith }

noted-Appended :
    (s : Shared)
    → IsPage (s.log)
    → Appended
        (if ctl_valid (s.ctl) then note_events (s.ctl) else [])
        (s.log)
        (if ctl_valid (s.ctl) then persist_note_previous_boot (s.ctl) (s.log) else s.log)
noted-Appended s h = elim (Bool-cases (ctl_valid (s.ctl))) [
  | inl e ↦ rw e (persist_note_previous_boot-Appended (s.ctl) h)
  | inr e ↦ rw e (Appended-nil h)
]

-- On a well-formed log, ctl_init_defaults makes a valid page of whatever the control page held:
-- the boot count is the old one raised by one where the page was valid and 1 where it was not,
-- the stage is cold reset, the log gains the previous boot's summary, if there is one, and the
-- first record of the new boot, and the invariant holds.
pub ctl_init_defaults_lem :
    (o : Options) (s : Shared)
    → IsPage (s.log)
    → let t = ctl_init_defaults o s in
      let old = if ctl_valid (s.ctl) then s.ctl.boot_count else 0 in
      let noted = if ctl_valid (s.ctl) then note_events (s.ctl) else [] in
      (ctl_valid (t.ctl) ≡ true)
      × (t.ctl.boot_count ≡ next_boot_count old)
      × (t.ctl.system_stage ≡ Stage.cold_reset)
      × (visible (t.log)
          ≡ last_of persist_log_capacity (
              visible (s.log)
              ++ number_from (last_seq (s.log)) (noted ++ (boot_event (next_boot_count old) ∷ []))))
      × IsShared t
unfolding ctl_init_defaults ctl_valid
ctl_init_defaults_lem o s h =
    let all =
      Appended-trans _ (boot_event _ ∷ []) (noted-Appended s h)
        (Appended-one _ (noted-Appended s h).page) in
    (
      refl,
      refl,
      refl,
      all.view,
      record { faults = zero_faults-IsFaultLog; traces = zero_traces-IsTraceLog; page = all.page },
    )

-- For each bit of a 32-bit word, raising a mask sets the mask's bits and keeps the others, and
-- clearing it clears the mask's bits and keeps the others.
pub platform_errors_bits :
    (mask : ℕ) (ctl : SharedCtrl) (k : ℕ)
    → k < 32
    → let raised = (ctl_set_platform_error mask ctl).platform_errors in
      let cleared = (ctl_clear_platform_error mask ctl).platform_errors in
      (bit raised k ≡ (if bit mask k == 1 then 1 else bit ctl.platform_errors k))
      × (bit cleared k ≡ (if bit mask k == 1 then 0 else bit ctl.platform_errors k))
unfolding ctl_set_platform_error ctl_clear_platform_error
platform_errors_bits mask ctl k small = (
  ground
      (arith, bit-bit_or k ctl.platform_errors mask, bit-le k mask, bit-le k ctl.platform_errors),
  ground (
    arith,
    bit-bit_and k ctl.platform_errors (not32 mask),
    bit-bit_xor k mask 0xffffffff,
    ones_bits k small,
    bit-le k mask,
    bit-le k ctl.platform_errors,
  ),
)
