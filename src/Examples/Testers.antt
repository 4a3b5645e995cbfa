-- ===== src/Examples/Testers.antt =====
-- The user programs.
use pand_aossh.Prelude.{
  ℕ, ◌-◌, ◌^◌, ◌<◌, ◌≡◌, refl, List, ◌==◌, if◌then◌else◌, [], ◌∷◌, arith, length, replicate,
}
use pand_aossh.Types.{State}
use pand_aossh.Support.Init.{Sys}
use pand_aossh.Support.Sys.{general_exception_handler}
use pand_aossh.Support.Sys.Rounds.{Sends}
use pand_aossh.Testers.Prints.{Asks, Prints, u_print-Prints}
use pand_aossh.Examples.Data.{blank_state}
use pand_aossh.Examples.Support.{sys, resident_vm}
use pand_aossh.Testers.Libuser.{codes, Reply, u_print, u_itoa, u_strlen}
use pand_aossh.Testers.Libuser.Decimal.{read_int, u_itoa-read_int}
use pand_aossh.Testers.Calc.{calc}
use pand_aossh.Testers.Calc.Result.{exact, Says, calc_lem}
use pand_aossh.Testers.Shell.{shell}
use pand_aossh.Testers.Shell.Session.{lines, session, shell-session}

-- The program prints "hi" from 0x80001000.
abbrev hi : Sys
hi = record sys {
  vm = record resident_vm { answer = λ k. 5 };
  memory = λ a. if a == 0x8000_1000 then b'h' else b'i';
}

abbrev printing : State
printing = record blank_state { cause = 8; reg_a0 = 4; reg_a1 = 0x8000_1000; reg_a2 = 2 }

hi-Asks : Asks (codes "hi") printing hi
unfolding pand_aossh.Testers.Libuser.u_strlen
hi-Asks = record { from_user = refl; number = refl; size = refl; stored = (refl, (refl, tt)) }

hi-Sends : Sends 1 0x8000_1000 (u_strlen (codes "hi")) 0 hi
unfolding pand_aossh.Testers.Libuser.u_strlen pand_aossh.Support.Vm.vpn_to_index
hi-Sends k b = (ground arith, ground arith)

u_print-Prints_example :
    Prints (codes "hi") printing hi (general_exception_handler 10 1 printing hi)
unfolding pand_aossh.Testers.Libuser.u_strlen
u_print-Prints_example =
    u_print-Prints 10 1 (codes "hi") printing hi hi-Asks refl (omega arith) hi-Sends

-- Minus 123, as a word.
u_itoa-read_int_example :
    (read_int (u_itoa (2 ^ 32 - 123)) ≡ 2 ^ 32 - 123) × (length (u_itoa (2 ^ 32 - 123)) < 12)
u_itoa-read_int_example = u_itoa-read_int (2 ^ 32 - 123) (omega arith) (omega arith)

abbrev three_less_nine : Reply
three_less_nine = record { stored = codes "3-9\n"; result = 4 }

calc_lem_example : Says (exact b'-' 3 9) (calc three_less_nine)
calc_lem_example =
    calc_lem three_less_nine 3 b'-' 9 (codes "\n") refl refl (omega arith) (omega arith)

abbrev typed : List (List ℕ)
typed = codes "uname" ∷ codes "ls" ∷ [] ∷ codes "exit" ∷ []

shell-session_example :
    shell (replicate 128 0) (lines typed)
    ≡ u_print (codes "PandOSsh shell\n")
      ∷ u_print (codes "comandi: echo fibEleven uname sl calc | exit\n")
      ∷ session typed
shell-session_example = shell-session (replicate 128 0) typed refl (ground arith)
