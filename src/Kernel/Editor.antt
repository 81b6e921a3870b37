-- ===== src/Kernel/Editor.antt =====
-- The line editor of `handle_console` of kernel/main.c: its buffer, and the command that a line names.
pub mod Typed
mod Tests
use Prim.Native.String.{String}
use sg2002_kraken.Base.{
  ℕ, ◌+◌, Bool, true, false, ◌&&◌, Option, none, some, List, [], ◌∷◌, ltb, ◌==◌, ◌!=◌,
  if◌then◌else◌, u32, length, set, replicate,
}
use sg2002_kraken.Console.{codes}

-- `sizeof(line)`
abbrev pub line_size : ℕ
line_size = 64

-- `line` and `line_len`
pub record Line : Type 0 where
  pub buf : List ℕ
  pub len : ℕ

abbrev pub no_line : Line
no_line = record { buf = replicate line_size 0; len = 0 }

-- What the chain of comparisons selects.
pub data Command : Type 0 where
  status cpu trap faults trace persist persist_clear run panic stop unknown blank : Command

-- `sg2002_memcmp(line, name, length of name) == 0`
pub same_bytes : (name buf : List ℕ) → Bool
same_bytes [] buf = true
same_bytes (c ∷ cs) [] = false
same_bytes (c ∷ cs) (b ∷ bs) = if c == b then same_bytes cs bs else false

pub is_line : String → Line → Bool
unfolding same_bytes
is_line name l = l.len == length (codes name) && same_bytes (codes name) l.buf

pub command_of : Line → Command
unfolding is_line
command_of l =
    if is_line "status" l
    then status
    else if is_line "cpu" l
    then cpu
    else if is_line "trap" l
    then trap
    else if is_line "faults" l
    then faults
    else if is_line "trace" l
    then trace
    else if is_line "persist" l
    then persist
    else if is_line "persist-clear" l
    then persist_clear
    else if is_line "run" l
    then run
    else if is_line "panic" l
    then panic
    else if is_line "stop" l
    then stop
    else if l.len != 0
    then unknown
    else blank

-- `if (line_len + 1 < sizeof(line)) line[line_len++] = c`
pub store_char : ℕ → Line → Line
store_char c l =
    if ltb (u32 (l.len + 1)) line_size
    then record { buf = set l.buf l.len c; len = u32 (l.len + 1) }
    else l

-- One round of the loop over the bytes that were read: the command, if the byte ends a line.
pub on_char : ℕ → Line → Option Command × Line
unfolding command_of store_char
on_char c l =
    let ended = record l { buf = set l.buf l.len 0 } in
    if c == 13
    then (none, l)
    else if c == 10
    then (some (command_of ended), record ended { len = 0 })
    else (none, store_char c l)

pub issue : Option Command → List Command → List Command
issue none ks = ks
issue (some k) ks = k ∷ ks

-- The loop, as the commands in their order: no command changes the buffer.
pub edit : List ℕ → Line → List Command × Line
unfolding on_char issue
edit [] l = ([], l)
edit (c ∷ cs) l =
    let (command, l') = on_char c l in let rest = edit cs l' in (issue command (rest.0), rest.1)
