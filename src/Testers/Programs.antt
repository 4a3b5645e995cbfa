-- ===== src/Testers/Programs.antt =====
-- testers/echo.c, fibEleven.c, sl.c and uname.c.
use pand_aossh.Prelude.{ℕ, zero, suc, ◌+◌, ◌%◌, ◌≡◌, ap, List, [], ◌∷◌, arith, if◌then◌else◌, take}
use pand_aossh.Prelude.Words.{add32, is_neg, word_mod}
use pand_aossh.Testers.Libuser.{codes, Request, write, Reply, u_print, u_readline, u_printint}

-- `main` of echo.c: what SYS5 stored is written back.
pub echo : Reply → List Request
echo r =
    u_print (codes "echo> ")
    ∷ u_readline
    ∷ (if is_neg r.result then [] else write (take r.result r.stored) ∷ [])

-- The loop of `fib` with n rounds left.
fib_loop : (n a b : ℕ) → ℕ
fib_loop zero a b = a
fib_loop (suc n) a b = fib_loop n b (add32 a b)

pub fib : ℕ → ℕ
unfolding fib_loop
fib n = fib_loop n 0 1

-- `main` of fibEleven.c.
pub fib_eleven : List Request
unfolding fib
fib_eleven = u_print (codes "fib(11) = ") ∷ u_printint (fib 11) ∷ u_print (codes "\n") ∷ []

-- `main` of uname.c.
pub uname : List Request
uname = u_print (codes "PandOSsh - Support Level (Phase 3) - uRISCV\n") ∷ []

-- `main` of sl.c.
pub sl : List Request
sl =
    u_print (codes "      ====        ________                ___________\n")
    ∷ u_print (codes "  _D _|  |_______/        \\__I_I_____===__|_________|\n")
    ∷ u_print (codes "   |(_)---  |   H\\________/ |   |        =|___ ___|  \n")
    ∷ u_print (codes "   /     |  |   H  |  |     |   |         ||_| |_||  \n")
    ∷ u_print (codes "  |      |  |   H  |__--------------------| [___] |  \n")
    ∷ u_print (codes "  | ________|___H__/__|_____/[][]~\\_______|       |  \n")
    ∷ u_print (codes "  |/ |   |-----------I_____I [][] []  D   |=======|__\n")
    ∷ u_print (codes "PandOSsh locomotive\n")
    ∷ []

-- The numbers of Fibonacci by their recurrence.
pub fibonacci : ℕ → ℕ
fibonacci zero = 0
fibonacci (suc zero) = 1
fibonacci (suc (suc n)) = fibonacci n + fibonacci (suc n)

fib_loop-fibonacci :
    (n i j : ℕ)
    → n + i ≡ j
    → fib_loop n (fibonacci i % word_mod) (fibonacci (suc i) % word_mod) ≡ fibonacci j % word_mod
unfolding fib_loop fibonacci
fib_loop-fibonacci zero i j e = let e' : i ≡ j = omega arith in ap (λ k. fibonacci k % word_mod) e'
fib_loop-fibonacci (suc n) i j e =
    let step : add32 (fibonacci i % word_mod) (fibonacci (suc i) % word_mod)
        ≡ fibonacci (suc (suc i)) % word_mod =
      omega arith in
    rw step (fib_loop-fibonacci n (suc i) j (omega arith))

-- `fib` computes the numbers of Fibonacci, as words.
pub fib-fibonacci : (n : ℕ) → fib n ≡ fibonacci n % word_mod
unfolding fib fibonacci
fib-fibonacci n = fib_loop-fibonacci n 0 n (omega arith)
