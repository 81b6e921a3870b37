-- ===== src/Persist/Ring.antt =====
-- The persistent log of shared/shared_state.c as a history of numbered records.
use mathlib.Core.List.{append_assoc, append-nil}
use sg2002_kraken.Base.{
  ℕ, ◌+◌, ◌≤◌, ◌<◌, ◌≡◌, refl, sym, ap, ◌∙◌, true, List, [], ◌∷◌, ◌++◌, arith, bit_and,
  bit_and_mask, u32, length, length-set, if◌then◌else◌, Bool-cases, inl, inr, log_view, last_of,
  log_view-step, last_of-last_of, last_of_short, length-window, ap₂,
}
use sg2002_kraken.Kraken.Config.{persist_log_capacity}
use sg2002_kraken.Kraken.Structs.{PersistRecord, PersistLog}
use sg2002_kraken.Persist.{
  zero_record, ctl_persist_clear, persist_valid, persist_ensure, Event, numbered, append_valid,
  persist_append,
}

-- The array has its slots, and where the log is valid its cursor and its count are in range.
pub record IsPage (log : PersistLog) : Type 0 where
  pub slots : length log.records ≡ persist_log_capacity
  pub head_in : persist_valid log ≡ true → log.write_head < persist_log_capacity
  pub count_in : persist_valid log ≡ true → log.record_count ≤ persist_log_capacity

-- A page that holds a log.
pub record IsLog (log : PersistLog) : Type 0 where
  pub valid : persist_valid log ≡ true
  pub slots : length log.records ≡ persist_log_capacity
  pub head_in : log.write_head < persist_log_capacity
  pub count_in : log.record_count ≤ persist_log_capacity

pub IsLog-IsPage : {log : PersistLog} → IsLog log → IsPage log
IsLog-IsPage h = record { slots = h.slots; head_in = λ _. h.head_in; count_in = λ _. h.count_in }

-- The records that the log holds, oldest first.
unfoldable pub entries : PersistLog → List PersistRecord
entries log = log_view zero_record persist_log_capacity log.records log.write_head log.record_count

-- What a reader sees of a page: nothing where no log is.
unfoldable pub visible : PersistLog → List PersistRecord
visible log = if persist_valid log then entries log else []

-- The number of the last record of a page.
unfoldable pub last_seq : PersistLog → ℕ
last_seq log = if persist_valid log then log.next_seq else 0

pub ctl_persist_clear-IsLog : IsLog ctl_persist_clear
unfolding ctl_persist_clear persist_valid
ctl_persist_clear-IsLog = record {
  valid = refl;
  slots = refl;
  head_in = omega arith;
  count_in = omega arith;
}

pub persist_ensure-IsLog : {log : PersistLog} → IsPage log → IsLog (persist_ensure log)
unfolding persist_ensure
persist_ensure-IsLog {log} h = elim (Bool-cases (persist_valid log)) [
  | inl e ↦
      rw e (record { valid = e; slots = h.slots; head_in = h.head_in e; count_in = h.count_in e })
  | inr e ↦ rw e (unfold ctl_persist_clear in ctl_persist_clear-IsLog)
]

pub entries-ensure : (log : PersistLog) → entries (persist_ensure log) ≡ visible log
unfolding persist_ensure visible entries
entries-ensure log = elim (Bool-cases (persist_valid log)) [ inl e ↦ rw e | inr e ↦ rw e ]

pub next_seq-ensure : (log : PersistLog) → (persist_ensure log).next_seq ≡ last_seq log
unfolding persist_ensure last_seq
next_seq-ensure log = elim (Bool-cases (persist_valid log)) [ inl e ↦ rw e | inr e ↦ rw e ]

pub visible-of_IsLog : {log : PersistLog} → IsLog log → visible log ≡ entries log
unfolding visible
visible-of_IsLog h = rw h.valid

pub last_seq-of_IsLog : {log : PersistLog} → IsLog log → last_seq log ≡ log.next_seq
unfolding last_seq
last_seq-of_IsLog h = rw h.valid

pub visible_short : {log : PersistLog} → IsPage log → length (visible log) ≤ persist_log_capacity
unfolding visible entries
visible_short {log} h = elim (Bool-cases (persist_valid log)) [
  | inl e ↦
      rw e
        (omega (arith, h.count_in e, length-window zero_record 256 log.records _ log.record_count))
  | inr e ↦ rw e (omega arith)
]

append_valid-IsLog : (e : Event) {log : PersistLog} → IsLog log → IsLog (append_valid e log)
unfolding append_valid persist_valid
append_valid-IsLog e {log} h = record {
  valid = h.valid;
  slots = length-set log.records _ _ ∙ h.slots;
  head_in = omega (arith, bit_and_mask 8 (u32 (bit_and log.write_head 255 + 1)));
  count_in = ground (arith, h.count_in);
}

entries-append_valid :
    (e : Event) {log : PersistLog}
    → IsLog log
    → entries (append_valid e log)
      ≡ last_of persist_log_capacity (entries log ++ (numbered (u32 (log.next_seq + 1)) e ∷ []))
unfolding append_valid entries
entries-append_valid e {log} h =
    log_view-step zero_record persist_log_capacity log.records log.write_head log.record_count _ _ _
      (numbered (u32 (log.next_seq + 1)) e) h.head_in (omega (arith, h.slots)) h.count_in slot
      (omega (arith, slot, bit_and_mask 8 (u32 (bit_and log.write_head 255 + 1))))
      (ground (arith, h.count_in))
  where
    slot : bit_and log.write_head 255 ≡ log.write_head
    slot = omega (arith, h.head_in, bit_and_mask 8 log.write_head)

-- Appending to any page leaves a log.
pub persist_append-IsLog :
    (e : Event) {log : PersistLog} → IsPage log → IsLog (persist_append e log)
unfolding persist_append
persist_append-IsLog e h = append_valid-IsLog e (persist_ensure-IsLog h)

-- Appending shows the reader the last 256 of what it saw and the new record, which has the next
-- number; a page that holds no log counts as empty.
pub visible-persist_append :
    (e : Event) {log : PersistLog}
    → IsPage log
    → visible (persist_append e log)
      ≡ last_of persist_log_capacity (visible log ++ (numbered (u32 (last_seq log + 1)) e ∷ []))
visible-persist_append e {log} h =
    visible-of_IsLog (persist_append-IsLog e h)
    ∙ appended
    ∙ ap₂ (λ l n. last_of persist_log_capacity (l ++ (numbered (u32 (n + 1)) e ∷ [])))
        (entries-ensure log) (next_seq-ensure log)
  where
    appended :
        entries (persist_append e log)
        ≡ last_of persist_log_capacity (
            entries (persist_ensure log)
            ++ (numbered (u32 ((persist_ensure log).next_seq + 1)) e ∷ []))
    appended = unfold persist_append in entries-append_valid e (persist_ensure-IsLog h)

pub last_seq-persist_append :
    (e : Event) {log : PersistLog}
    → IsPage log
    → last_seq (persist_append e log) ≡ u32 (last_seq log + 1)
last_seq-persist_append e {log} h =
    last_seq-of_IsLog (persist_append-IsLog e h)
    ∙ (unfold persist_append append_valid in ap (λ n. u32 (n + 1)) (next_seq-ensure log))

-- A run of appends.
unfoldable pub append_all : List Event → PersistLog → PersistLog
append_all [] log = log
append_all (e ∷ es) log = append_all es (persist_append e log)

-- The records of a history: each event with the number behind its predecessor's.
unfoldable pub number_from : ℕ → List Event → List PersistRecord
number_from n [] = []
number_from n (e ∷ es) = numbered (u32 (n + 1)) e ∷ number_from (u32 (n + 1)) es

-- The number of the last record of a history.
pub seq_after : ℕ → List Event → ℕ
seq_after n [] = n
seq_after n (e ∷ es) = seq_after (u32 (n + 1)) es

pub number_from-append :
    (n : ℕ) (es fs : List Event)
    → number_from n (es ++ fs) ≡ number_from n es ++ number_from (seq_after n es) fs
unfolding number_from seq_after
number_from-append n [] fs = refl
number_from-append n (e ∷ es) fs =
    ap (λ l. numbered (u32 (n + 1)) e ∷ l) (number_from-append (u32 (n + 1)) es fs)

seq_after-append :
    (n : ℕ) (es fs : List Event) → seq_after n (es ++ fs) ≡ seq_after (seq_after n es) fs
unfolding seq_after
seq_after-append n [] fs = refl
seq_after-append n (e ∷ es) fs = seq_after-append (u32 (n + 1)) es fs

-- `after` is what a page becomes by appending events, as a reader sees it.
pub record Appended (es : List Event) (before after : PersistLog) : Type 0 where
  pub page : IsPage after
  pub view :
      visible after
      ≡ last_of persist_log_capacity (visible before ++ number_from (last_seq before) es)
  pub seq : last_seq after ≡ seq_after (last_seq before) es

pub Appended-nil : {log : PersistLog} → IsPage log → Appended [] log log
unfolding number_from seq_after
Appended-nil {log} h = record {
  page = h;
  view = sym (
      ap (last_of persist_log_capacity) (append-nil (visible log))
      ∙ last_of_short _ _ (visible_short h));
  seq = refl;
}

pub Appended-one :
    (e : Event) {log : PersistLog} → IsPage log → Appended (e ∷ []) log (persist_append e log)
unfolding number_from seq_after
Appended-one e h = record {
  page = IsLog-IsPage (persist_append-IsLog e h);
  view = visible-persist_append e h;
  seq = last_seq-persist_append e h;
}

pub Appended-trans :
    (es fs : List Event) {a b c : PersistLog}
    → Appended es a b
    → Appended fs b c
    → Appended (es ++ fs) a c
Appended-trans es fs {a} {b} {c} p q = record {
  page = q.page;
  view =
      q.view
      ∙ ap₂ (λ l n. last_of persist_log_capacity (l ++ number_from n fs)) p.view p.seq
      ∙ last_of-last_of persist_log_capacity (visible a ++ number_from (last_seq a) es) _
      ∙ ap (last_of persist_log_capacity) (
          append_assoc (visible a) (number_from (last_seq a) es) _
          ∙ ap (λ l. visible a ++ l) (sym (number_from-append (last_seq a) es fs)));
  seq = q.seq ∙ ap (λ n. seq_after n fs) p.seq ∙ sym (seq_after-append (last_seq a) es fs);
}

append_all-Appended :
    (es : List Event) {log : PersistLog} → IsPage log → Appended es log (append_all es log)
unfolding append_all
append_all-Appended [] h = Appended-nil h
append_all-Appended (e ∷ es) h =
    let one = Appended-one e h in Appended-trans (e ∷ []) es one (append_all-Appended es one.page)

-- On a well-formed page, however many events are appended, a reader of the persistent log sees
-- the last 256 of what was there followed by all the events, each with the number behind its
-- predecessor's; a page that holds no log counts as empty.
pub append_all_view :
    (es : List Event) {log : PersistLog}
    → IsPage log
    → visible (append_all es log)
      ≡ last_of persist_log_capacity (visible log ++ number_from (last_seq log) es)
append_all_view es h = (append_all-Appended es h).view
