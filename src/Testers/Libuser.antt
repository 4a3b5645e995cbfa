-- ===== src/Testers/Libuser.antt =====
-- testers/h/libuser.h. A string is the list of its codes before the NUL; an `int` is a word. A
-- program is what it asks of the Support Level, in order; what SYS5 gives is a parameter.
pub mod Decimal
use Prim.Native.Char.{code}
use Prim.Native.String.{String}
use pand_aossh.Prelude.{
  ℕ, zero, suc, ◌+◌, ◌-◌, ◌*◌, ◌/◌, ◌%◌, List, [], ◌∷◌, ◌++◌, ◌==◌, if◌then◌else◌, length,
}
use pand_aossh.Prelude.Words.{is_neg, minus, slt}

-- The codes of a literal.
abbrev pub codes : String → List ℕ
codes String.[] = []
codes (String.◌∷◌ c s) = code c ∷ codes s

-- The services SYS4, SYS5, SYS6 and SYS2 as a program asks for them.
pub data Request : Type 0 where
  write : List ℕ → Request
  read : Request
  execute : (asid : ℕ) → Request
  terminate : Request

-- What SYS5 does: the characters that it stored, and the `int` that it returned.
pub record Reply : Type 0 where
  pub stored : List ℕ
  pub result : ℕ

unfoldable pub u_strlen : List ℕ → ℕ
u_strlen [] = 0
u_strlen (_ ∷ s) = suc (u_strlen s)

abbrev pub u_print : List ℕ → Request
u_print s = write s

-- The loop that fills `tmp`, the last character first, so that the list is in the order of `out`.
-- It runs on fuel.
unfoldable pub tmp_loop : (fuel v : ℕ) → List ℕ → List ℕ
tmp_loop zero v tmp = tmp
tmp_loop (suc fuel) v tmp = if slt 0 v then tmp_loop fuel (v / 10) ((b'0' + v % 10) ∷ tmp) else tmp

-- An `int` has at most ten decimal digits.
unfoldable pub u_itoa : (v : ℕ) → List ℕ
unfolding tmp_loop
u_itoa v =
    if v == 0
    then b'0' ∷ []
    else if is_neg v
    then b'-' ∷ tmp_loop 10 (minus v) []
    else tmp_loop 10 v []

abbrev pub u_printint : ℕ → Request
u_printint v = u_print (u_itoa v)

abbrev pub u_readline : Request
u_readline = read

abbrev pub u_execute : ℕ → Request
u_execute asid = execute asid

abbrev pub u_terminate : Request
u_terminate = terminate
