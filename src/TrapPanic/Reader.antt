-- ===== src/TrapPanic/Reader.antt =====
-- shared/trap.c: what can be read back of a report.
use sg2002_kraken.Base.{
  ℕ, zero, suc, ◌+◌, ◌-◌, ◌^◌, ◌<◌, ◌≡◌, refl, sym, ap, ◌∙◌, List, [], ◌∷◌, ◌++◌, length, take,
  drop, length-append, drop-drop, arith,
}
use sg2002_kraken.Hex.{uart_puthex64}
use sg2002_kraken.Hex.Digits.{value}
use sg2002_kraken.Hex.Long.{length-uart_puthex64, value-uart_puthex64}
use sg2002_kraken.Console.{codes, uart_puts}
use sg2002_kraken.TrapPanic.Report.{TrapImage, register_line, trap_report}

-- The four registers of a report, from its last 110 characters.
pub record Registers : Type 0 where
  pub mcause : ℕ
  pub mepc : ℕ
  pub mtval : ℕ
  pub mstatus : ℕ

-- The number that stands at place `i` of a line, 16 digits long.
abbrev field_at : (i : ℕ) → List ℕ → ℕ
field_at i line = value 0 (take 16 (drop i line))

pub read_report : List ℕ → Registers
read_report report =
    let line = drop (length report - 110) report in
    record {
      mcause = field_at 16 line;
      mepc = field_at 40 line;
      mtval = field_at 65 line;
      mstatus = field_at 92 line;
    }

module _ {ℓ} {A : Type ℓ} where
  drop_exact : (n : ℕ) (xs ys : List A) → length xs ≡ n → drop n (xs ++ ys) ≡ ys
  drop_exact zero [] ys h = refl
  drop_exact zero (x ∷ xs) ys h = absurd (omega (arith, h))
  drop_exact (suc n) [] ys h = absurd (omega (arith, h))
  drop_exact (suc n) (x ∷ xs) ys h = drop_exact n xs ys (omega (arith, h))

  take_exact : (n : ℕ) (xs ys : List A) → length xs ≡ n → take n (xs ++ ys) ≡ xs
  take_exact zero [] ys h = refl
  take_exact zero (x ∷ xs) ys h = absurd (omega (arith, h))
  take_exact (suc n) [] ys h = absurd (omega (arith, h))
  take_exact (suc n) (x ∷ xs) ys h = ap (λ l. x ∷ l) (take_exact n xs ys (omega (arith, h)))

register_line_lem :
    (mcause mepc mtval mstatus : ℕ) → length (register_line mcause mepc mtval mstatus) ≡ 110
unfolding register_line uart_puts
register_line_lem mcause mepc mtval mstatus = omega (
  arith,
  length-append (uart_puthex64 mcause) _,
  length-append (uart_puthex64 mepc) _,
  length-append (uart_puthex64 mtval) _,
  length-append (uart_puthex64 mstatus) _,
  length-uart_puthex64 mcause,
  length-uart_puthex64 mepc,
  length-uart_puthex64 mtval,
  length-uart_puthex64 mstatus,
)

-- Behind a label of `n` characters stands a number.
number_lem :
    (label rest : List ℕ) (i n v : ℕ) (line : List ℕ)
    → drop i line ≡ label ++ (uart_puthex64 v ++ rest)
    → length label ≡ n
    → v < 2 ^ 64
    → (field_at (i + n) line ≡ v) × (drop (i + n + 16) line ≡ rest)
number_lem label rest i n v line e len fits =
    let there : drop (i + n) line ≡ uart_puthex64 v ++ rest =
      sym (drop-drop i n line) ∙ ap (drop n) e ∙ drop_exact n label (uart_puthex64 v ++ rest) len in
    (
      ap (value 0)
            (ap (take 16) there ∙ take_exact 16 (uart_puthex64 v) rest (length-uart_puthex64 v))
          ∙ value-uart_puthex64 v fits,
      sym (drop-drop (i + n) 16 line)
          ∙ ap (drop 16) there
          ∙ drop_exact 16 (uart_puthex64 v) rest (length-uart_puthex64 v),
    )

-- The registers of a line of registers.
abbrev line_registers : List ℕ → Registers
line_registers line = record {
  mcause = field_at 16 line;
  mepc = field_at 40 line;
  mtval = field_at 65 line;
  mstatus = field_at 92 line;
}

line_registers_lem :
    (r : Registers)
    → r.mcause < 2 ^ 64
    → r.mepc < 2 ^ 64
    → r.mtval < 2 ^ 64
    → r.mstatus < 2 ^ 64
    → line_registers (register_line r.mcause r.mepc r.mtval r.mstatus) ≡ r
unfolding register_line uart_puts
line_registers_lem r cause pc tval status =
    let line = register_line r.mcause r.mepc r.mtval r.mstatus in
    let a =
      number_lem (uart_puts (codes "[trap] mcause=0x")) _ 0 16 (r.mcause) line refl refl cause in
    let b = number_lem (uart_puts (codes " mepc=0x")) _ 32 8 (r.mepc) line a.1 refl pc in
    let c = number_lem (uart_puts (codes " mtval=0x")) _ 56 9 (r.mtval) line b.1 refl tval in
    let d = number_lem (uart_puts (codes " mstatus=0x")) _ 81 11 (r.mstatus) line c.1 refl status in
    λ i. record { mcause = a.0 i; mepc = b.0 i; mtval = c.0 i; mstatus = d.0 i }

read_report_behind :
    (head line : List ℕ) → length line ≡ 110 → read_report (head ++ line) ≡ line_registers line
unfolding read_report
read_report_behind head line len = ap line_registers (
    drop_exact (length (head ++ line) - 110) head line
      (omega (arith, length-append head line, len)))

-- Whatever the image and the cause, the four registers, 64-bit words, can be read back from the
-- end of the report.
pub trap_report_lem :
    (image : TrapImage) (r : Registers)
    → r.mcause < 2 ^ 64
    → r.mepc < 2 ^ 64
    → r.mtval < 2 ^ 64
    → r.mstatus < 2 ^ 64
    → read_report (trap_report image r.mcause r.mepc r.mtval r.mstatus) ≡ r
unfolding trap_report
trap_report_lem image r cause pc tval status =
    let line = register_line r.mcause r.mepc r.mtval r.mstatus in
    read_report_behind _ line (register_line_lem r.mcause r.mepc r.mtval r.mstatus)
    ∙ line_registers_lem r cause pc tval status
