-- ===== src/Klog/Digits.antt =====
-- The cursor of the log, and the order in which digits are written.
use pand_aossh.Prelude.{
  ℕ, zero, suc, ◌+◌, ◌*◌, ◌/◌, ◌%◌, ◌≤◌, ◌<◌, ◌≡◌, List, [], ◌∷◌, leb, ◌==◌, if◌then◌else◌, arith,
  if-split,
}
use pand_aossh.Klog.{
  Log, klog_lines, klog_line_size, next_line, next_char, put_char, klog_print, klog_print_hex,
  klog_print_dec, write_all, digits_of, hex_digit,
}

-- The cursor is inside the buffer.
pub record IsLog (l : Log) : Type 0 where
  pub line : l.line_index < klog_lines
  pub column : l.char_index < klog_line_size

put_char-IsLog : (c : ℕ) (l : Log) → IsLog l → IsLog (put_char c l)
unfolding put_char next_char next_line
put_char-IsLog c l v = ground arith

next_line-IsLog : (l : Log) → IsLog l → IsLog (next_line l)
unfolding next_line
next_line-IsLog l v = ground arith

klog_print-IsLog : (cs : List ℕ) (l : Log) → IsLog l → IsLog (klog_print cs l)
unfolding klog_print
klog_print-IsLog [] l v = v
klog_print-IsLog (c ∷ cs) l v = klog_print-IsLog cs _ (
    if-split IsLog (c == 10) (next_line l) (put_char c l) (λ h. next_line-IsLog l v)
      (λ h. put_char-IsLog c l v))

write_all-IsLog : (cs : List ℕ) (l : Log) → IsLog l → IsLog (write_all cs l)
unfolding write_all
write_all-IsLog [] l v = v
write_all-IsLog (c ∷ cs) l v = write_all-IsLog cs (put_char c l) (put_char-IsLog c l v)

-- No print, whatever its argument, moves the cursor out of the buffer.
pub prints-IsLog :
    (cs : List ℕ) (num : ℕ) (l : Log)
    → IsLog l
    → IsLog (klog_print cs l) × IsLog (klog_print_hex num l) × IsLog (klog_print_dec num l)
unfolding klog_print_hex klog_print_dec
prints-IsLog cs num l v =
    let low = hex_digit (num / 10 % 10) ∷ hex_digit (num % 10) ∷ [] in
    let high = digits_of num 10 num hex_digit in
    (
      klog_print-IsLog cs l v,
      write_all-IsLog (digits_of num 16 num hex_digit) l v,
      if-split IsLog (leb 10 num) (write_all high l) (write_all low l)
          (λ h. write_all-IsLog high l v) (λ h. write_all-IsLog low l v),
    )

-- The value of digits written least significant first.
pub value : ℕ → List ℕ → ℕ
value b [] = 0
value b (d ∷ ds) = d + b * value b ds

quotient-le : (fuel b num : ℕ) → 2 ≤ b → num ≤ suc fuel → num / b ≤ fuel
quotient-le fuel b num h f = grind arith

division : (b num : ℕ) → 2 ≤ b → num % b + b * (num / b) ≡ num
division b num h = grind arith

-- The digits that `klog_print_hex` and, from 10 on, `klog_print_dec` write are those of the number,
-- the least significant first, so the log shows the number backwards.
pub digits_of-value :
    (fuel b num : ℕ) → 2 ≤ b → num ≤ fuel → value b (digits_of fuel b num (λ d. d)) ≡ num
unfolding digits_of value
digits_of-value zero b num h f = grind arith
digits_of-value (suc fuel) b num h f =
    let rest = digits_of fuel b (num / b) (λ d. d) in
    let quotient : value b (if num / b == 0 then [] else rest) ≡ num / b =
      if-split (λ ds. value b ds ≡ num / b) (num / b == 0) [] rest (λ e. ground arith)
        (λ e. digits_of-value fuel b (num / b) h (quotient-le fuel b num h f)) in
    rw quotient (division b num h)
