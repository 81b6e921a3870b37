-- ===== src/Ctl/Trap.antt =====
-- The record of a trap, `ctl_note_trap` of shared/shared_state.c.
use sg2002_kraken.Base.{
  ℕ, zero, suc, ◌+◌, ◌-◌, ◌*◌, ◌/◌, ◌%◌, ◌^◌, ◌≤◌, ◌<◌, ◌≡◌, refl, ap, ◌∙◌, [], ◌∷◌, ◌++◌, arith,
  bit_and, bit_or, bit_or_high, bit_and_mask, u32, ◌>>>◌, ◌!=◌, if◌then◌else◌, last_of,
}
use sg2002_kraken.Kraken.Config.{fault_log_size, trace_log_size, persist_log_capacity}
use sg2002_kraken.Kraken.TraceCode
use sg2002_kraken.Kraken.Structs.{FaultRecord, TraceRecord, Shared}
use sg2002_kraken.Persist.Ring.{visible, last_seq, number_from}
use sg2002_kraken.Ctl.{packed_mcause, ctl_note_trap}
use sg2002_kraken.Ctl.Logs.{
  IsShared, fault_view, trace_view, fault, trace, log_entry, log_all, events_of, log_all_views,
}

-- The interrupt bit and the low 32 bits of the code, as arithmetic.
pub packed-eq :
    (m : ℕ)
    → m < 2 ^ 64
    → packed_mcause m ≡ (if (m >>> 63) != 0 then bit_or (m % 2 ^ 32) 0x80000000 else m % 2 ^ 32)
unfolding packed_mcause
packed-eq m h = rw narrow refl
  where
    narrow : u32 (bit_and (bit_and m (2 ^ 64 - 1 - 2 ^ 63)) 0xffffffff) ≡ m % 2 ^ 32
    narrow = omega (arith, bit_and_mask 63 m, bit_and_mask 32 (bit_and m (2 ^ 63 - 1)))

or_one : (q : ℕ) → q < 2 → bit_or q 1 ≡ 1
or_one zero h = refl
or_one (suc zero) h = refl
or_one (suc (suc q)) h = absurd (omega arith)

-- `|` of bit 31 into a word sets that bit and keeps the 31 below it.
or_top : (x : ℕ) → x < 2 ^ 32 → bit_or x 0x80000000 ≡ 2 ^ 31 + x % 2 ^ 31
or_top x h =
    ap (λ (t : ℕ). bit_or t 0x80000000) {x = x} {y = x / 2 ^ 31 * 2 ^ 31 + x % 2 ^ 31} (omega arith)
    ∙ bit_or_high 31 (x / 2 ^ 31) (x % 2 ^ 31) 1 (omega arith)
    ∙ ap (λ (t : ℕ). t * 2 ^ 31 + x % 2 ^ 31) (or_one (x / 2 ^ 31) (omega arith))

packed_sum :
    (m : ℕ)
    → m < 2 ^ 64
    → packed_mcause m ≡ (if (m >>> 63) != 0 then 2 ^ 31 + m % 2 ^ 31 else m % 2 ^ 32)
packed_sum m h = packed-eq m h ∙ ground (arith, or_top (m % 2 ^ 32))

-- For a 64-bit cause whose code fits 31 bits, bit 31 of the packed cause is the interrupt bit and
-- the bits below are the code.
pub packed_mcause_fields :
    (mcause : ℕ)
    → mcause < 2 ^ 64
    → mcause % 2 ^ 63 < 2 ^ 31
    → (packed_mcause mcause / 2 ^ 31 ≡ mcause / 2 ^ 63)
      × (packed_mcause mcause % 2 ^ 31 ≡ mcause % 2 ^ 63)
packed_mcause_fields m h small = ground (arith, packed_sum m h)

-- An exception whose 63-bit code has bit 31 set is packed exactly as the interrupt with that
-- code.
pub packed_mcause_collide :
    (code : ℕ)
    → code < 2 ^ 63
    → 2 ^ 31 ≤ code % 2 ^ 32
    → packed_mcause code ≡ packed_mcause (code + 2 ^ 63)
packed_mcause_collide c h top = ground (arith, packed_sum c, packed_sum (c + 2 ^ 63))

-- On well-formed state, a trap is counted and its registers are stored, the fault ring ends in
-- the packed cause with the program counter and the trace ring in the packed cause with the
-- status, the persistent log shows the trace and then the fault behind what it showed, and the
-- invariant is kept.
pub ctl_note_trap_lem :
    (source mcause mepc mtval mstatus : ℕ) {s : Shared}
    → IsShared s
    → let t = ctl_note_trap source mcause mepc mtval mstatus s in
      let traced : TraceRecord = record {
        source = source;
        code = TraceCode.trap_panic;
        arg0 = packed_mcause mcause;
        arg1 = u32 mstatus;
      } in
      let faulted : FaultRecord = record {
        tag = source;
        code = packed_mcause mcause;
        arg0 = u32 mepc;
        arg1 = u32 mstatus;
      } in
      (t.ctl.trap ≡ record {
        count = u32 (s.ctl.trap.count + 1);
        last_source = source;
        last_cause = packed_mcause mcause;
        last_epc = u32 mepc;
        last_tval = u32 mtval;
        last_status = u32 mstatus;
      })
      × (fault_view (t.ctl) ≡ last_of fault_log_size (fault_view (s.ctl) ++ (faulted ∷ [])))
      × (trace_view (t.ctl) ≡ last_of trace_log_size (trace_view (s.ctl) ++ (traced ∷ [])))
      × (visible (t.log)
          ≡ last_of persist_log_capacity (
              visible (s.log)
              ++ number_from (last_seq (s.log)) (
                  events_of s.ctl.boot_count s.ctl.system_stage
                    (trace traced ∷ fault faulted ∷ []))))
      × IsShared t
unfolding ctl_note_trap log_all log_entry fault_view trace_view
ctl_note_trap_lem source mcause mepc mtval mstatus {s} h =
    let all =
      log_all_views
        (trace (record {
          source = source;
          code = TraceCode.trap_panic;
          arg0 = packed_mcause mcause;
          arg1 = u32 mstatus;
        })
          ∷ fault (record {
            tag = source;
            code = packed_mcause mcause;
            arg0 = u32 mepc;
            arg1 = u32 mstatus;
          })
          ∷ [])
        {s = record s {
          ctl = record (s.ctl) {
            trap = record {
              count = u32 (s.ctl.trap.count + 1);
              last_source = source;
              last_cause = packed_mcause mcause;
              last_epc = u32 mepc;
              last_tval = u32 mtval;
              last_status = u32 mstatus;
            };
          };
        }}
        (record { faults = h.faults; traces = h.traces; page = h.page }) in
    (refl, all.0, all.1, all.2, all.3)
