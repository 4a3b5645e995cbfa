-- ===== src/Testers/Prints.antt =====
-- A program of testers on the Support Level: what it prints reaches the terminal.
use pand_aossh.Prelude.{
  ℕ, suc, ◌+◌, ◌%◌, ◌≤◌, ◌≡◌, refl, sym, ap, ◌∙◌, subst, false, Option, none, some, List, [], ◌∷◌,
  ◌++◌, map, arith, ◌==◌, eq→==,
}
use pand_aossh.Types.{State}
use pand_aossh.Support.Vm.{dev_mutex, Call, passeren, transmit}
use pand_aossh.Support.Init.{Sys}
use pand_aossh.Support.Sys.{
  Leave, ldst, give_result, general_exception_handler, sup_syscall_handler, is_outside, maxstrlen,
  termw_mutex, char_command, write_terminal,
}
use pand_aossh.Support.Sys.Terminal.{Does}
use pand_aossh.Support.Sys.Rounds.{Sends, commands, release}
use pand_aossh.Support.Sys.Write.{write_terminal_lem}
use pand_aossh.Support.Sys.Handler.{behind}
use pand_aossh.Testers.Libuser.{u_strlen}

-- The characters stand in the memory from the address on.
abbrev pub Holds : (memory : ℕ → ℕ) (addr : ℕ) → List ℕ → Type 0
Holds memory addr [] = Unit {0}
Holds memory addr (c ∷ s) = (memory addr ≡ c) × Holds memory (suc addr) s

-- The `ecall` of a program that prints: its registers and its memory.
pub record Asks (text : List ℕ) (state : State) (s : Sys) : Type 0 where
  pub from_user : state.cause % 256 ≡ 8
  pub number : state.reg_a0 ≡ 4
  pub size : state.reg_a2 ≡ u_strlen text
  pub stored : Holds s.memory state.reg_a1 text

-- The commands that send a text.
abbrev pub sends : List ℕ → List Call
sends text = map (λ c. transmit (char_command c)) text

commands-sends :
    (text : List ℕ) (memory : ℕ → ℕ) (addr i a : ℕ)
    → addr + i ≡ a
    → Holds memory a text
    → commands memory addr i (u_strlen text) ≡ sends text
unfolding u_strlen
commands-sends [] memory addr i a e h = refl
commands-sends (c ∷ text) memory addr i a e (here, there) =
    let rest = commands-sends text memory addr (i + 1) (suc a) (omega arith) there in
    ap (λ (l : List Call). transmit (char_command (memory (addr + i))) ∷ l) rest
    ∙ ap (λ b. transmit (char_command b) ∷ sends text) (ap memory e ∙ here)

-- What the handler did for the text.
pub Prints : List ℕ → State → Sys → Leave × Sys → Type 0
Prints text state s (leave, t) =
    (leave ≡ ldst (behind state (u_strlen text)))
    × (t.vm.trace ≡ s.vm.trace ++ (passeren (dev_mutex termw_mutex) ∷ sends text ++ release))
    × (t.memory ≡ s.memory)

given :
    (text : List ℕ) (state : State) (s : Sys) (r : Option ℕ × Sys)
    → Does (some (u_strlen text)) (passeren (dev_mutex termw_mutex) ∷ sends text ++ release) s r
    → Prints text state s (give_result state r)
unfolding Prints
given text state s (none, t) h = cc (h.0)
given text state s (some v, t) h = (cc (h.0), h.1, h.2)

-- `u_print` of at most 128 characters, whose pages are in frames, when the terminal takes them: the handler sends them in order
-- while it holds the terminal's mutex, and the program goes on with their number.
pub u_print-Prints :
    (fuel asid : ℕ) (text : List ℕ) (state : State) (s : Sys)
    → Asks text state s
    → is_outside state.reg_a1 ≡ false
    → u_strlen text ≤ maxstrlen
    → Sends asid state.reg_a1 (u_strlen text) 0 s
    → Prints text state s (general_exception_handler fuel asid state s)
unfolding general_exception_handler sup_syscall_handler
u_print-Prints fuel asid text state s a g l h =
    let not_2 : (state.reg_a0 == 2) ≡ false = let n = a.number in ground arith in
    let same : commands s.memory state.reg_a1 0 (u_strlen text) ≡ sends text =
      commands-sends text s.memory state.reg_a1 0 state.reg_a1 (omega arith) a.stored in
    let done = write_terminal_lem asid state.reg_a1 (u_strlen text) s g l h in
    let calls = λ (l : List Call). passeren (dev_mutex termw_mutex) ∷ l ++ release in
    rw (eq→== _ 8 a.from_user, not_2, eq→== _ 4 a.number)
      (given text state s (write_terminal asid state.reg_a1 state.reg_a2 s) (
        subst
          (λ n.
            Does (some (u_strlen text)) (calls (sends text)) s
              (write_terminal asid state.reg_a1 n s))
          (sym a.size)
          (subst
            (λ (l : List Call).
              Does (some (u_strlen text)) (calls l) s
                (write_terminal asid state.reg_a1 (u_strlen text) s))
            same done)))
