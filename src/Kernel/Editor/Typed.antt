-- ===== src/Kernel/Editor/Typed.antt =====
-- The line editor of kernel/main.c against an editor without a buffer.
use Prim.Native.String.{String}
use sg2002_kraken.Base.{
  eq_text, ℕ, zero, suc, ◌+◌, ◌≡◌, ◌≤◌, ◌<◌, refl, sym, ap, ap₂, ◌∙◌, true, false, Bool-cases, inl,
  inr, Option, none, some, ◌&&◌, List, [], ◌∷◌, ◌++◌, ltb, ◌==◌, ◌!=◌, if◌then◌else◌, u32, length,
  set, take, min, arith, dec_lt, length-append, length-set, take-set_end, take-set_self, take_all,
  take-append_of_le,
}
use sg2002_kraken.Console.{codes}
use sg2002_kraken.Kernel.Editor.{
  line_size, Line, Command, status, cpu, trap, faults, trace, persist, persist_clear, run, panic,
  stop, unknown, blank, same_bytes, is_line, command_of, store_char, on_char, issue, edit,
}

-- The commands by their names.
abbrev pub commands : List (String × Command)
commands =
    ("status", status)
    ∷ ("cpu", cpu)
    ∷ ("trap", trap)
    ∷ ("faults", faults)
    ∷ ("trace", trace)
    ∷ ("persist", persist)
    ∷ ("persist-clear", persist_clear)
    ∷ ("run", run)
    ∷ ("panic", panic)
    ∷ ("stop", stop)
    ∷ ("", blank)
    ∷ []

pub lookup : List ℕ → List (String × Command) → Command
lookup w [] = unknown
lookup w ((name, k) ∷ table) = if eq_text (codes name) w then k else lookup w table

-- The editor without a buffer: `typed` is what has been typed of the current line, and the first 63
-- characters of a line count.
pub typed_commands : List ℕ → (typed : List ℕ) → List Command × List ℕ
typed_commands [] typed = ([], typed)
typed_commands (c ∷ cs) typed =
    let ended = typed_commands cs [] in
    let longer = typed_commands cs (typed ++ (c ∷ [])) in
    let same = typed_commands cs typed in
    if c == 13
    then same
    else if c == 10
    then (lookup (take 63 typed) commands ∷ ended.0, ended.1)
    else longer

-- The buffer shows what has been typed, as far as it goes.
pub record Shows (typed : List ℕ) (l : Line) : Type 0 where
  pub slots : length l.buf ≡ line_size
  pub count : l.len ≡ min 63 (length typed)
  pub text : take l.len l.buf ≡ take 63 typed

-- Comparing lengths and then bytes is comparing texts.
same_bytes-eq_text :
    (name : List ℕ) (n : ℕ) (buf : List ℕ)
    → n ≤ length buf
    → (n == length name && same_bytes name buf) ≡ eq_text name (take n buf)
unfolding same_bytes eq_text
same_bytes-eq_text [] zero buf h = refl
same_bytes-eq_text [] (suc n) [] h = absurd (omega arith)
same_bytes-eq_text [] (suc n) (b ∷ bs) h = ground arith
same_bytes-eq_text (c ∷ cs) zero buf h = ground arith
same_bytes-eq_text (c ∷ cs) (suc n) [] h = absurd (omega arith)
same_bytes-eq_text (c ∷ cs) (suc n) (b ∷ bs) h =
    ground (arith, same_bytes-eq_text cs n bs (omega arith))

module _ {typed : List ℕ} {l : Line} (h : Shows typed l) where
  is_line-eq_text : (name : String) → is_line name l ≡ eq_text (codes name) (take 63 typed)
  unfolding is_line
  is_line-eq_text name =
      same_bytes-eq_text (codes name) (l.len) (l.buf) (omega (arith, h.slots, h.count))
      ∙ ap (eq_text (codes name)) h.text

  empty-eq_text : (l.len == 0) ≡ eq_text [] (take 63 typed)
  unfolding same_bytes
  empty-eq_text =
      ground arith
      ∙ same_bytes-eq_text [] (l.len) (l.buf) (omega (arith, h.slots, h.count))
      ∙ ap (eq_text []) h.text

  none_of_them :
      (if l.len != 0 then unknown else blank)
      ≡ (if eq_text [] (take 63 typed) then blank else unknown)
  none_of_them = ground (arith, empty-eq_text)

  command_of-lookup : command_of l ≡ lookup (take 63 typed) commands
  unfolding command_of lookup
  command_of-lookup =
      rw
        (
          is_line-eq_text "status",
          is_line-eq_text "cpu",
          is_line-eq_text "trap",
          is_line-eq_text "faults",
          is_line-eq_text "trace",
          is_line-eq_text "persist",
          is_line-eq_text "persist-clear",
          is_line-eq_text "run",
          is_line-eq_text "panic",
          is_line-eq_text "stop",
          none_of_them,
        )
        refl

  store_char-Shows : (c : ℕ) → Shows (typed ++ (c ∷ [])) (store_char c l)
  unfolding store_char
  store_char-Shows c = elim (dec_lt (length typed) 63) [
    | yes p ↦ rw (stored p) (record {
      slots = length-set l.buf _ _ ∙ h.slots;
      count = omega (arith, h.count, length-append typed (c ∷ []));
      text =
          ap (λ (k : ℕ). take k (set l.buf l.len c)) {x = u32 (l.len + 1)} {y = suc (l.len)}
            (omega (arith, h.count))
          ∙ take-set_end (l.len) (l.buf) c (omega (arith, h.count, h.slots))
          ∙ ap (λ t. t ++ (c ∷ [])) (h.text ∙ take_all 63 typed (omega arith))
          ∙ sym (take_all 63 (typed ++ (c ∷ [])) (omega (arith, length-append typed (c ∷ []))));
    })
    | no p ↦ rw (dropped p) (record {
      slots = h.slots;
      count = omega (arith, h.count, length-append typed (c ∷ []));
      text = h.text ∙ sym (take-append_of_le 63 typed (c ∷ []) (omega arith));
    })
  ]
    where
      stored : length typed < 63 → ltb (u32 (l.len + 1)) line_size ≡ true
      stored p = ground (arith, h.count)

      dropped : ¬ (length typed < 63) → ltb (u32 (l.len + 1)) line_size ≡ false
      dropped p = ground (arith, h.count)

  ended-Shows : Shows typed (record l { buf = set l.buf l.len 0 })
  ended-Shows = record {
    slots = length-set l.buf _ _ ∙ h.slots;
    count = h.count;
    text = take-set_self (l.len) (l.buf) 0 ∙ h.text;
  }

-- What a byte does, by what it is.
abbrev Step : ℕ → Line → Option Command → Line → Type 0
Step c l k l' = on_char c l ≡ (k, l')

on_cr : (c : ℕ) (l : Line) → (c == 13) ≡ true → Step c l none l
unfolding on_char
on_cr c l e = rw e refl

on_lf :
    (c : ℕ) (l : Line)
    → (c == 13) ≡ false
    → (c == 10) ≡ true
    → let ended = record l { buf = set l.buf l.len 0 } in
      Step c l (some (command_of ended)) (record ended { len = 0 })
unfolding on_char
on_lf c l e f = rw (e, f) refl

on_other :
    (c : ℕ) (l : Line) → (c == 13) ≡ false → (c == 10) ≡ false → Step c l none (store_char c l)
unfolding on_char
on_other c l e f = rw (e, f) refl

-- From a buffer that shows what has been typed of a line, the editor issues the commands of an
-- editor without a buffer, and its buffer of 64 bytes shows what that one has of the next line: a
-- command is recognised by all of its line's first 63 characters, carriage returns apart.
pub edit_lem :
    (cs : List ℕ) {typed : List ℕ} {l : Line}
    → Shows typed l
    → ((edit cs l).0 ≡ (typed_commands cs typed).0)
      × Shows ((typed_commands cs typed).1) ((edit cs l).1)
unfolding edit typed_commands issue
edit_lem [] h = (refl, h)
edit_lem (c ∷ cs) {typed} {l} h = elim (Bool-cases (c == 13)) [
  | inl e ↦ rw (on_cr c l e, e) (edit_lem cs h)
  | inr e ↦ elim (Bool-cases (c == 10)) [
    | inl f ↦
        let rest =
          edit_lem cs {typed = []}
            (record { slots = length-set l.buf _ _ ∙ h.slots; count = refl; text = refl }) in
        rw (on_lf c l e f, e, f) (ap₂ ◌∷◌ (command_of-lookup (ended-Shows h)) (rest.0), rest.1)
    | inr f ↦ rw (on_other c l e f, e, f) (edit_lem cs (store_char-Shows h c))
  ]
]
