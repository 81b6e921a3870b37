-- ===== src/TrapPanic.antt =====
-- `kraken_trap_panic` of shared/trap.c, up to the LED loop in which it ends. `source` is what
-- `kraken_trap_source_tag` of the image returns; the messages on the UART are left out.
mod Tests
pub mod Page
pub mod Report
pub mod Reader
use sg2002_kraken.Base.{
  ℕ, ◌<◌, ◌≡◌, ◌⊎◌, refl, ◌∙◌, arith, true, false, ◌==◌, if◌then◌else◌, set_bits, [], ◌∷◌, ◌++◌,
  u32, last_of, bit, bit-bit_or, bit-le, bit-pow_self, bit_or, Bool-cases, inl, inr, ap,
}
use sg2002_kraken.Kraken.Config.{fault_log_size}
use sg2002_kraken.Kraken.Options.{Options}
use sg2002_kraken.Kraken.CoreState
use sg2002_kraken.Kraken.FaultSource
use sg2002_kraken.Kraken.Stage
use sg2002_kraken.Kraken.SysFlag
use sg2002_kraken.Kraken.Structs.{FaultRecord, SharedCtrl, Shared}
use sg2002_kraken.Persist.Ring.{IsPage}
use sg2002_kraken.Ctl.{
  ctl_valid, ctl_init_defaults, ctl_note_trap, ctl_set_stage, ctl_trace_log, ctl_fault_log,
  packed_mcause,
}
use sg2002_kraken.Ctl.Boot.{ctl_init_defaults_lem}
use sg2002_kraken.Ctl.Logs.{IsShared, fault_view}
use sg2002_kraken.Ctl.Progress.{ctl_set_stage_lem}
use sg2002_kraken.Ctl.Trap.{ctl_note_trap_lem}

abbrev pub trap_reason : ℕ
trap_reason = 0x54524150

-- The page that the panic works on: a fresh one where memory holds none.
pub usable : Options → Shared → Shared
usable o s = if ctl_valid (s.ctl) then s else ctl_init_defaults o s

pub kraken_trap_panic : Options → (source mcause mepc mtval mstatus : ℕ) → Shared → Shared
unfolding usable
kraken_trap_panic o source mcause mepc mtval mstatus s =
    let noted = ctl_note_trap source mcause mepc mtval mstatus (usable o s) in
    ctl_set_stage Stage.panic (record noted {
      ctl = record (noted.ctl) {
        reset_reason = trap_reason;
        system_flags = set_bits noted.ctl.system_flags SysFlag.riscv_trap;
        worker_state =
            if source == FaultSource.worker then CoreState.fault else noted.ctl.worker_state;
      };
    })

usable-IsShared :
    (o : Options) {s : Shared}
    → IsPage (s.log)
    → (ctl_valid (s.ctl) ≡ false) ⊎ IsShared s
    → (ctl_valid ((usable o s).ctl) ≡ true) × IsShared (usable o s)
unfolding usable
usable-IsShared o {s} page h = elim (Bool-cases (ctl_valid (s.ctl))) [
  | inl e ↦ rw e (e, was_shared e h)
  | inr e ↦ rw e (let t = ctl_init_defaults_lem o s page in (t.0, t.4))
]
  where
    was_shared : ctl_valid (s.ctl) ≡ true → (ctl_valid (s.ctl) ≡ false) ⊎ IsShared s → IsShared s
    was_shared e (inl f) = absurd (ground arith)
    was_shared e (inr g) = g

trap_bit : (flags : ℕ) → bit (bit_or flags SysFlag.riscv_trap) 7 ≡ 1
trap_bit flags =
    omega (arith, bit-bit_or 7 flags SysFlag.riscv_trap, bit-le 7 flags, bit-pow_self 7)

module _ (source mcause mepc mtval mstatus : ℕ) (s : Shared) where
  note_trap-valid :
      ctl_valid ((ctl_note_trap source mcause mepc mtval mstatus s).ctl) ≡ ctl_valid (s.ctl)
  unfolding ctl_note_trap ctl_trace_log ctl_fault_log ctl_valid
  note_trap-valid = refl

  note_trap-worker :
      (ctl_note_trap source mcause mepc mtval mstatus s).ctl.worker_state ≡ s.ctl.worker_state
  unfolding ctl_note_trap ctl_trace_log ctl_fault_log
  note_trap-worker = refl

-- On a well-formed log, and a control page that is invalid or well-formed, a trap leaves a valid
-- page at the panic stage with the trap's reason and flag, the worker marked faulty if the trap
-- was its own, the packed cause, program counter and status as the last entry of the fault ring,
-- and the invariant.
pub kraken_trap_panic_lem :
    (o : Options) (source mcause mepc mtval mstatus : ℕ) {s : Shared}
    → IsPage (s.log)
    → (ctl_valid (s.ctl) ≡ false) ⊎ IsShared s
    → let t = kraken_trap_panic o source mcause mepc mtval mstatus s in
      let faulted : FaultRecord = record {
        tag = source;
        code = packed_mcause mcause;
        arg0 = u32 mepc;
        arg1 = u32 mstatus;
      } in
      (ctl_valid (t.ctl) ≡ true)
      × (t.ctl.system_stage ≡ Stage.panic)
      × (t.ctl.reset_reason ≡ trap_reason)
      × (bit t.ctl.system_flags 7 ≡ 1)
      × (t.ctl.worker_state ≡ (
          if source == FaultSource.worker then CoreState.fault else (usable o s).ctl.worker_state))
      × (fault_view (t.ctl)
          ≡ last_of fault_log_size (fault_view ((usable o s).ctl) ++ (faulted ∷ [])))
      × IsShared t
unfolding kraken_trap_panic ctl_valid fault_view
kraken_trap_panic_lem o source mcause mepc mtval mstatus {s} page h =
    let u = usable-IsShared o page h in
    let n = ctl_note_trap_lem source mcause mepc mtval mstatus u.1 in
    let noted = ctl_note_trap source mcause mepc mtval mstatus (usable o s) in
    let staged =
      ctl_set_stage_lem Stage.panic
        {s = record noted {
          ctl = record (noted.ctl) {
            reset_reason = trap_reason;
            system_flags = set_bits noted.ctl.system_flags SysFlag.riscv_trap;
            worker_state =
                if source == FaultSource.worker then CoreState.fault else noted.ctl.worker_state;
          };
        }}
        (record { faults = n.4.faults; traces = n.4.traces; page = n.4.page }) in
    (
      ap ctl_valid staged.0 ∙ note_trap-valid source mcause mepc mtval mstatus (usable o s) ∙ u.0,
      ap (λ (c : SharedCtrl). c.system_stage) staged.0,
      ap (λ (c : SharedCtrl). c.reset_reason) staged.0,
      ap (λ (c : SharedCtrl). bit c.system_flags 7) staged.0 ∙ trap_bit _,
      ap (λ (c : SharedCtrl). c.worker_state) staged.0
          ∙ ap (λ k. if source == FaultSource.worker then CoreState.fault else k)
              (note_trap-worker source mcause mepc mtval mstatus (usable o s)),
      ap fault_view staged.0 ∙ n.1,
      staged.2,
    )
