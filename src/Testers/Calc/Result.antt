-- ===== src/Testers/Calc/Result.antt =====
-- What calc.c prints.
use pand_aossh.Prelude.{
  ℕ, ◌+◌, ◌-◌, ◌*◌, ◌/◌, ◌^◌, ◌<◌, ◌≡◌, refl, false, Option, none, some, List, [], ◌∷◌, arith, ◌==◌,
  if◌then◌else◌, subst, sym, ltb, ◌⊎◌, ◌≢◌,
}
use pand_aossh.Prelude.Words.{add32, sub32, minus, slt}
use pand_aossh.Testers.Libuser.{codes, Request, Reply, u_print, u_readline, u_itoa}
use pand_aossh.Testers.Libuser.Decimal.{read_int, u_itoa-read_int}
use pand_aossh.Testers.Calc.{calculate, respond, calc}

-- The operators on digits. A difference below 0 is the word of the negative number.
abbrev pub exact : (op x y : ℕ) → Option ℕ
exact op x y =
    if op == b'+'
    then some (x + y)
    else if op == b'-'
    then some (if ltb x y then minus (y - x) else x - y)
    else if op == b'*'
    then some (x * y)
    else if op == b'/'
    then (if y == 0 then none else some (x / y))
    else none

digit_word : (x : ℕ) → x < 10 → sub32 (b'0' + x) b'0' ≡ x
digit_word x h = omega arith

product_below : (x y : ℕ) → x < 10 → y < 10 → x * y < 100
product_below x y h k = grind arith

calculate_small : (op x y : ℕ) → x < 10 → y < 10 → calculate op x y ≡ exact op x y
unfolding calculate
calculate_small op x y h k = ground (arith, product_below x y h k)

-- The result of two digits is small in magnitude.
exact_small :
    (op x y : ℕ)
    → x < 10
    → y < 10
    → (v : ℕ) → exact op x y ≡ some v
    → (v < 100) ⊎ ((2 ^ 32 - 100 < v) × (v < 2 ^ 32))
exact_small op x y h k v e = ground (arith, product_below x y h k)

abbrev pub greeting : List Request → List Request
greeting rest = u_print (codes "calc: inserisci <cifra><op><cifra> (es. 7*8): ") ∷ u_readline ∷ rest

-- The output behind the input is the message for the result o.
abbrev pub Says : Option ℕ → List Request → Type 0
Says none out = out ≡ greeting (u_print (codes "calc: operazione non valida\n") ∷ [])
Says (some v) out =
    (s : List ℕ) × (out
      ≡ greeting (u_print (codes "calc: risultato = ") ∷ u_print s ∷ u_print (codes "\n") ∷ []))
    × (read_int s ≡ v)

respond-Says :
    (o : Option ℕ)
    → ((v : ℕ) → o ≡ some v → (v < 100) ⊎ ((2 ^ 32 - 100 < v) × (v < 2 ^ 32)))
    → Says o (greeting (respond o))
unfolding respond
respond-Says none small = refl
respond-Says (some v) small =
    let range : (v < 2 ^ 32) × (v ≢ 2 ^ 31) = ground (arith, small v refl) in
    (u_itoa v, refl, (u_itoa-read_int v range.0 range.1).0)

calc_unfolded :
    (r : Reply) (x op y : ℕ) (rest : List ℕ)
    → r.stored ≡ (b'0' + x) ∷ op ∷ (b'0' + y) ∷ rest
    → slt r.result 3 ≡ false
    → x < 10
    → y < 10
    → calc r ≡ greeting (respond (exact op x y))
unfolding calc
calc_unfolded r x op y rest e n h k =
    simp (e, n, digit_word x h, digit_word y k, calculate_small op x y h k)

-- For a digit, an operator and a digit, whatever follows, calc.c prints the decimal text of the
-- exact result, or says that the operation is not valid: for a division by 0 or another operator.
pub calc_lem :
    (r : Reply) (x op y : ℕ) (rest : List ℕ)
    → r.stored ≡ (b'0' + x) ∷ op ∷ (b'0' + y) ∷ rest
    → slt r.result 3 ≡ false
    → x < 10
    → y < 10
    → Says (exact op x y) (calc r)
calc_lem r x op y rest e n h k =
    subst (Says (exact op x y)) (sym (calc_unfolded r x op y rest e n h k))
      (respond-Says (exact op x y) (exact_small op x y h k))

newline_sum : (x : ℕ) → x < 10 → add32 (sub32 (b'0' + x) b'0') (sub32 b'\n' b'0') ≡ sub32 x 38
newline_sum x h = omega arith

newline_unfolded :
    (r : Reply) (x : ℕ)
    → x < 10
    → r.stored ≡ (b'0' + x) ∷ b'+' ∷ b'\n' ∷ []
    → r.result ≡ 3
    → calc r ≡ greeting (respond (some (sub32 x 38)))
unfolding calc calculate
newline_unfolded r x h e n = simp (e, n, newline_sum x h)

-- The line of a digit and a plus is not refused: its newline counts as the second digit, so that
-- the result is 38 too small.
pub calc_accepts_newline :
    (r : Reply) (x : ℕ)
    → x < 10
    → r.stored ≡ (b'0' + x) ∷ b'+' ∷ b'\n' ∷ []
    → r.result ≡ 3
    → Says (some (sub32 x 38)) (calc r)
calc_accepts_newline r x h e n =
    subst (Says (some (sub32 x 38))) (sym (newline_unfolded r x h e n))
      (respond-Says (some (sub32 x 38)) (λ v f. ground arith))
