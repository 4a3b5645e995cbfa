-- ===== src/Testers/Calc.antt =====
-- testers/calc.c.
pub mod Result
use pand_aossh.Prelude.{
  ℕ, zero, suc, ◌+◌, ◌-◌, ◌*◌, ◌/◌, ◌%◌, Bool, Option, none, some, List, [], ◌∷◌, ◌==◌,
  if◌then◌else◌,
}
use pand_aossh.Prelude.Words.{add32, sub32, minus, is_neg, slt, word_mod}
use pand_aossh.Testers.Libuser.{codes, Request, Reply, u_print, u_readline, u_itoa}

-- `buf[i]`; the buffer behind the characters that were read is not written yet.
abbrev pub byte : List ℕ → ℕ → ℕ
byte [] i = 0
byte (c ∷ s) zero = c
byte (c ∷ s) (suc i) = byte s i

abbrev pub magnitude : ℕ → ℕ
magnitude a = if is_neg a then minus a else a

-- (int) a / (int) b rounds towards zero.
abbrev pub sdiv : (a b : ℕ) → ℕ
sdiv a b =
    let q = magnitude a / magnitude b in
    if is_neg a then (if is_neg b then q else minus q) else if is_neg b then minus q else q

-- The switch on the operator; `none` is `ok = 0`.
unfoldable pub calculate : (op a b : ℕ) → Option ℕ
calculate op a b =
    if op == b'+'
    then some (add32 a b)
    else if op == b'-'
    then some (sub32 a b)
    else if op == b'*'
    then some (a * b % word_mod)
    else if op == b'/'
    then (if b == 0 then none else some (sdiv a b))
    else none

-- calc.c has a copy of `u_itoa`.
abbrev pub itoa : ℕ → List ℕ
itoa v = u_itoa v

-- The lines behind the input.
unfoldable pub respond : Option ℕ → List Request
respond none = u_print (codes "calc: operazione non valida\n") ∷ []
respond (some r) =
    u_print (codes "calc: risultato = ") ∷ u_print (itoa r) ∷ u_print (codes "\n") ∷ []

unfoldable pub calc : Reply → List Request
calc r =
    let a = sub32 (byte r.stored 0) b'0' in
    let b = sub32 (byte r.stored 2) b'0' in
    u_print (codes "calc: inserisci <cifra><op><cifra> (es. 7*8): ")
    ∷ u_readline
    ∷ (if slt r.result 3
        then u_print (codes "calc: input non valido\n") ∷ []
        else respond (calculate (byte r.stored 1) a b))
