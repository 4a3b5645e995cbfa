-- ===== src/Nucleus/Debug.antt =====
-- phase2/debug.h: what the two functions write to the command register of terminal 0.
use Prim.Native.Nat.{bit_or}
use pand_aossh.Prelude.{
  ℕ, zero, suc, ◌+◌, ◌-◌, ◌*◌, ◌/◌, ◌%◌, ◌^◌, ◌<◌, ◌≡◌, refl, List, [], ◌∷◌, ◌++◌, arith, ltb,
  if◌then◌else◌, length, ap, sym, ◌∙◌,
}

-- `2 | (c << 8)`.
abbrev pub transmit_command : ℕ → ℕ
transmit_command c = bit_or 2 (c * 2 ^ 8)

pub debug_print : (msg : List ℕ) → List ℕ
debug_print [] = []
debug_print (c ∷ msg) = transmit_command c ∷ debug_print msg

abbrev pub hex_digit : ℕ → ℕ
hex_digit nibble = if ltb nibble 10 then b'0' + nibble else b'a' + nibble - 10

-- The loop that fills `hex` from its end, with n places left.
pub hex_loop : (n val : ℕ) → List ℕ → List ℕ
hex_loop zero val hex = hex
hex_loop (suc n) val hex = hex_loop n (val / 2 ^ 4) (hex_digit (val % 2 ^ 4) ∷ hex)

pub debug_hex : (label : List ℕ) (val : ℕ) → List ℕ
unfolding debug_print hex_loop
debug_hex label val =
    debug_print label
    ++ debug_print (hex_loop 8 val [])
    ++ transmit_command b' ' ∷ transmit_command b'\n' ∷ []

abbrev pub nibble_of : ℕ → ℕ
nibble_of c = if ltb c b'a' then c - b'0' else c - b'a' + 10

-- The number that hexadecimal digits stand for, behind the number n.
pub read_hex : List ℕ → (n : ℕ) → ℕ
read_hex [] n = n
read_hex (c ∷ hex) n = read_hex hex (16 * n + nibble_of c)

below_sixteenth : (v bound : ℕ) → v < 16 * bound → v / 16 < bound
below_sixteenth v bound h = grind arith

power_suc : (n : ℕ) → 16 ^ suc n ≡ 16 * 16 ^ n
power_suc n = grind arith

hex_loop-read_hex :
    (n val : ℕ) (hex : List ℕ) → val < 16 ^ n → read_hex (hex_loop n val hex) 0 ≡ read_hex hex val
unfolding hex_loop read_hex
hex_loop-read_hex zero val hex h = let none_left : val ≡ 0 = omega arith in rw none_left
hex_loop-read_hex (suc n) val hex h =
    let rest =
      hex_loop-read_hex n (val / 16) (hex_digit (val % 16) ∷ hex)
        (below_sixteenth val (16 ^ n) (rw (← power_suc n) h)) in
    ground (arith, rest)

length-hex_loop : (n val : ℕ) (hex : List ℕ) → length (hex_loop n val hex) ≡ n + length hex
unfolding hex_loop
length-hex_loop zero val hex = omega arith
length-hex_loop (suc n) val hex =
    omega (arith, length-hex_loop n (val / 16) (hex_digit (val % 16) ∷ hex))

debug_print-append : (a b : List ℕ) → debug_print (a ++ b) ≡ debug_print a ++ debug_print b
unfolding debug_print
debug_print-append [] b = refl
debug_print-append (c ∷ a) b = ap (λ l. transmit_command c ∷ l) (debug_print-append a b)

printed :
    (label hex : List ℕ)
    → debug_print label ++ debug_print hex ++ transmit_command b' ' ∷ transmit_command b'\n' ∷ []
      ≡ debug_print (label ++ hex ++ b' ' ∷ b'\n' ∷ [])
unfolding debug_print
printed label hex =
    ap (λ l. l ++ transmit_command b' ' ∷ transmit_command b'\n' ∷ [])
      (sym (debug_print-append label hex))
    ∙ sym (debug_print-append (label ++ hex) (b' ' ∷ b'\n' ∷ []))

-- The text of `debug_hex` for a word.
pub Shows : (label : List ℕ) (val : ℕ) (out : List ℕ) → Type 0
Shows label val out =
    (hex : List ℕ) × (out ≡ debug_print (label ++ hex ++ b' ' ∷ b'\n' ∷ []))
    × (length hex ≡ 8)
    × (read_hex hex 0 ≡ val)

-- `debug_hex` prints the label, eight hexadecimal digits that are read back as the word, the most
-- significant first, a space and a newline.
pub debug_hex-read_hex :
    (label : List ℕ) (val : ℕ) → val < 2 ^ 32 → Shows label val (debug_hex label val)
unfolding Shows debug_hex read_hex
debug_hex-read_hex label val h =
    let hex = hex_loop 8 val [] in
    (
      hex,
      printed label hex,
      omega (arith, length-hex_loop 8 val []),
      hex_loop-read_hex 8 val [] (omega arith),
    )
