-- ===== src/Kernel/Report/Listing.antt =====
-- The listings of kernel/main.c against the logs that they show.
use sg2002_kraken.Base.{
  ℕ, zero, suc, ◌+◌, ◌-◌, ◌%◌, ◌^◌, ◌≤◌, ◌<◌, ◌≡◌, refl, ap, ap₂, ◌∙◌, List, [], ◌∷◌, ◌++◌, arith,
  bit_and, bit_and_mask, u32, get_or, window, log_view, ◌==◌, Bool-cases, inl, inr, if◌then◌else◌,
}
use sg2002_kraken.Kraken.Structs.{SharedCtrl, PersistLog, Shared}
use sg2002_kraken.Ctl.Zero.{zero_fault, zero_trace}
use sg2002_kraken.Ctl.Logs.{IsShared, IsFaultLog, IsTraceLog, fault_view, trace_view}
use sg2002_kraken.Persist.{zero_record, persist_valid}
use sg2002_kraken.Persist.Ring.{IsPage, visible, entries}
use sg2002_kraken.Console.{Piece, text}
use sg2002_kraken.Kernel.Report.{
  fault_line, print_faults, trace_line, print_trace, persist_line, log_lines, persist_header,
  print_persist,
}

-- The lines of the entries of a list.
abbrev pub listing {ℓ} : {A : Type ℓ} → (A → List Piece) → List A → List Piece
listing line [] = []
listing line (x ∷ xs) = line x ++ listing line xs

module _ {ℓ} {A : Type ℓ} (line : A → List Piece) (d : A) (size : ℕ) (buf : List A) (head count : ℕ)
    (masks : (a : ℕ) → bit_and a (size - 1) ≡ a % size) (below : head < size) (most : count ≤ size)
    (small : size ≤ 256) where
  log_lines-window :
      (left i : ℕ)
      → left + i ≤ count
      → log_lines line d size buf head count left i
        ≡ listing line (window d size buf (head + size - count + i) left)
  unfolding log_lines
  log_lines-window zero i le = refl
  log_lines-window (suc left) i le =
      ap₂ (λ k rest. line (get_or buf k d) ++ rest)
        (masks (u32 (u32 (head + size) + 2 ^ 32 - count + i))
          ∙ ap (λ (k : ℕ). k % size) (omega arith))
        (log_lines-window left (i + 1) (omega arith)
          ∙ ap (λ (k : ℕ). listing line (window d size buf k left)) (omega arith))

  -- The loop prints the lines of what the log holds, oldest first.
  log_lines-log_view :
      log_lines line d size buf head count count 0 ≡ listing line (log_view d size buf head count)
  log_lines-log_view =
      log_lines-window count 0 (omega arith)
      ∙ ap (λ (k : ℕ). listing line (window d size buf k count)) {y = head + size - count}
          (omega arith)

-- On a well-formed ring, the fault listing is one line for each fault that the ring holds, the oldest
-- first, and the single line that there is none where it holds none.
print_faults_lem :
    (ctl : SharedCtrl)
    → IsFaultLog (ctl.faults)
    → print_faults ctl ≡ (
        if ctl.faults.count == 0
        then text "[fault] none\n" ∷ []
        else listing fault_line (fault_view ctl))
unfolding print_faults fault_view
print_faults_lem ctl h =
    ap (λ l. if ctl.faults.count == 0 then text "[fault] none\n" ∷ [] else l)
      (log_lines-log_view fault_line zero_fault 16 ctl.faults.entries ctl.faults.head
        ctl.faults.count (bit_and_mask 4) h.head_in h.count_in (omega arith))

-- On a well-formed ring, the trace listing is one line for each entry that the ring holds, the oldest
-- first, and the single line that there is none where it holds none.
print_trace_lem :
    (ctl : SharedCtrl)
    → IsTraceLog (ctl.traces)
    → print_trace ctl ≡ (
        if ctl.traces.count == 0
        then text "[trace] none\n" ∷ []
        else listing trace_line (trace_view ctl))
unfolding print_trace trace_view
print_trace_lem ctl h =
    ap (λ l. if ctl.traces.count == 0 then text "[trace] none\n" ∷ [] else l)
      (log_lines-log_view trace_line zero_trace 32 ctl.traces.entries ctl.traces.head
        ctl.traces.count (bit_and_mask 5) h.head_in h.count_in (omega arith))

-- On a well-formed page, the persistent listing is the header and one line for each record that a
-- reader of the log sees, the oldest first, or the single line that there is none where no log is.
print_persist_lem :
    (log : PersistLog)
    → IsPage log
    → print_persist log ≡ (
        if persist_valid log
        then persist_header log ++ listing persist_line (visible log)
        else text "[persist] none\n" ∷ [])
unfolding print_persist visible entries
print_persist_lem log h = elim (Bool-cases (persist_valid log)) [
  | inl e ↦ rw e (
      ap (λ l. persist_header log ++ l)
        (log_lines-log_view persist_line zero_record 256 log.records log.write_head log.record_count
          (bit_and_mask 8) (h.head_in e) (h.count_in e) (omega arith)))
  | inr e ↦ rw e
]

-- On well-formed state, the three listings of the console show one line for each entry that the
-- fault ring, the trace ring and a valid persistent log hold, the oldest first, the last behind
-- its header; where there is nothing to list they are the single line that says so.
pub print_logs_lem :
    (s : Shared)
    → IsShared s
    → (print_faults (s.ctl) ≡ (
        if s.ctl.faults.count == 0
        then text "[fault] none\n" ∷ []
        else listing fault_line (fault_view (s.ctl))))
      × (print_trace (s.ctl) ≡ (
          if s.ctl.traces.count == 0
          then text "[trace] none\n" ∷ []
          else listing trace_line (trace_view (s.ctl))))
      × (print_persist (s.log) ≡ (
          if persist_valid (s.log)
          then persist_header (s.log) ++ listing persist_line (visible (s.log))
          else text "[persist] none\n" ∷ []))
print_logs_lem s h = (
  print_faults_lem (s.ctl) h.faults,
  print_trace_lem (s.ctl) h.traces,
  print_persist_lem (s.log) h.page,
)
