-- ===== src/Klog.antt =====
-- klog.c: the circular log buffer. The buffer is a function of the line and the column; a string
-- is the list of its codes.
pub mod Digits
use pand_aossh.Prelude.{
  ℕ, zero, suc, ◌+◌, ◌/◌, ◌%◌, List, [], ◌∷◌, leb, ltb, ◌==◌, if◌then◌else◌, Bool,
}

abbrev pub klog_lines : ℕ
klog_lines = 64

abbrev pub klog_line_size : ℕ
klog_line_size = 42

pub record Log : Type 0 where
  pub line_index : ℕ
  pub char_index : ℕ
  pub buffer : ℕ → ℕ → ℕ

-- The next line, filled with blanks.
unfoldable pub next_line : Log → Log
next_line l =
    let line = (l.line_index + 1) % klog_lines in
    record {
      line_index = line;
      char_index = 0;
      buffer = λ i j.
          if i == line then (if ltb j klog_line_size then b' ' else l.buffer i j) else l.buffer i j;
    }

unfoldable pub next_char : Log → Log
next_char l =
    let l1 = record l { char_index = l.char_index + 1 } in
    if leb klog_line_size l1.char_index then next_line (record l1 { char_index = 0 }) else l1

-- `klog_buffer[klog_line_index][klog_char_index] = c` and `next_char()`.
unfoldable pub put_char : ℕ → Log → Log
put_char c l = next_char (record l {
  buffer = λ i j.
      if i == l.line_index then (if j == l.char_index then c else l.buffer i j) else l.buffer i j;
})

unfoldable pub klog_print : List ℕ → Log → Log
klog_print [] l = l
klog_print (c ∷ cs) l = klog_print cs (if c == 10 then next_line l else put_char c l)

-- The characters that the loop of `klog_print_hex` or `klog_print_dec` writes, in the order of
-- writing, in the base b. The fuel is the number itself: each round divides it.
unfoldable pub digits_of : (fuel b num : ℕ) → (ℕ → ℕ) → List ℕ
digits_of zero b num digit = digit (num % b) ∷ []
digits_of (suc fuel) b num digit =
    let rest = digits_of fuel b (num / b) digit in
    digit (num % b) ∷ (if num / b == 0 then [] else rest)

-- `digits[d]` of the two tables.
abbrev pub hex_digit : ℕ → ℕ
hex_digit d = if ltb d 10 then b'0' + d else 55 + d

write_all : List ℕ → Log → Log
write_all [] l = l
write_all (c ∷ cs) l = write_all cs (put_char c l)

unfoldable pub klog_print_hex : ℕ → Log → Log
unfolding write_all
klog_print_hex num l = write_all (digits_of num 16 num hex_digit) l

-- Below 10 the number is written with two digits.
unfoldable pub klog_print_dec : ℕ → Log → Log
unfolding write_all
klog_print_dec num l =
    if leb 10 num
    then write_all (digits_of num 10 num hex_digit) l
    else write_all (hex_digit (num / 10 % 10) ∷ hex_digit (num % 10) ∷ []) l
