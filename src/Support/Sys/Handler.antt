-- ===== src/Support/Sys/Handler.antt =====
-- The general exception handler: how it leaves, and with what.
use pand_aossh.Prelude.{
  ℕ, suc, ◌%◌, ◌<◌, ◌≡◌, false, Option, none, some, [], ◌∷◌, ◌++◌, arith, ◌==◌, replicate, eq→==,
}
use pand_aossh.Prelude.Words.{add32}
use pand_aossh.Types.{State}
use pand_aossh.Support.Vm.{dev_mutex, passeren, verhogen}
use pand_aossh.Support.Init.{Sys}
use pand_aossh.Support.Sys.{
  Leave, ldst, out_of_fuel, give_result, sup_syscall_handler, general_exception_handler,
  read_terminal, termr_mutex, is_outside,
}
use pand_aossh.Support.Sys.Read.{IsLine, Reads, Returns, received, read_terminal_lem}

-- The state in which a U-proc goes on behind its `ecall`.
abbrev pub behind : State → (result : ℕ) → State
behind state v = record state { reg_a0 = v; pc_epc = add32 state.pc_epc 4 }

-- A line on the terminal: the U-proc that asked for it by SYS5 goes on behind its `ecall` with the
-- number of characters in a0, and the line is in its memory.
pub Lines : (state : State) (n : ℕ) → Sys → Leave × Sys → Type 0
Lines state n s (leave, t) =
    (leave ≡ ldst (behind state (suc n)))
    × Reads state.reg_a1 n
        (passeren (dev_mutex termr_mutex) ∷ replicate (suc n) received
          ++ verhogen (dev_mutex termr_mutex) ∷ [])
        s t

line_given :
    (state : State) (n : ℕ) (s : Sys) (r : Option (Option ℕ × Sys))
    → Returns
        (suc n)
        state.reg_a1
        n
        (passeren (dev_mutex termr_mutex) ∷ replicate (suc n) received
          ++ verhogen (dev_mutex termr_mutex) ∷ [])
        s
        r
    → Lines state n s (elim r [ none ↦ (out_of_fuel, s) | some r ↦ give_result state r ])
unfolding Lines
line_given state n s none h = absurd h
line_given state n s (some (none, t)) h = cc (h.0)
line_given state n s (some (some v, t)) h = (cc (h.0), h.1)

-- SYS5 through the general exception handler, on an `ecall` from user mode with 5 in a0, for a line
-- whose places are in the logical space with their pages in frames: the handler ends, and the U-proc
-- goes on behind its `ecall` with the number of characters in a0, the newline included; they are
-- stored in order from the address on and nothing else is written; and the calls are one receive for
-- each character, with the terminal's mutex taken before and released after.
pub handler-Lines :
    (fuel asid n : ℕ) (state : State) (s : Sys)
    → state.cause % 256 ≡ 8
    → state.reg_a0 ≡ 5
    → is_outside state.reg_a1 ≡ false
    → n < fuel
    → IsLine asid state.reg_a1 n s
    → Lines state n s (general_exception_handler fuel asid state s)
unfolding general_exception_handler sup_syscall_handler
handler-Lines fuel asid n state s c a g f h =
    let not_2 : (state.reg_a0 == 2) ≡ false = ground arith in
    let not_4 : (state.reg_a0 == 4) ≡ false = ground arith in
    rw (eq→== _ 8 c, not_2, not_4, eq→== _ 5 a)
      (line_given state n s (read_terminal fuel asid state.reg_a1 s)
        (read_terminal_lem asid state.reg_a1 n fuel s g f h))
