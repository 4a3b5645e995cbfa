-- ===== src/Support/Sys/Execute.antt =====
-- SYS6: which ASIDs it takes, and what it starts.
use pand_aossh.Prelude.{
  ℕ, ◌%◌, ◌<◌, ◌≡◌, ◌≢◌, refl, ap, Bool, true, false, ◌&&◌, ◌||◌, some, [], ◌∷◌, ◌++◌, arith, ◌==◌,
  eq→==, leb, ltb, append_assoc, Bool-cases, inl, inr,
}
use pand_aossh.Prelude.Words.{minus, is_neg}
use pand_aossh.Types.{State}
use pand_aossh.Support.Vm.{
  passeren, shell_semaphore, create_process, page_entry, init_uproc_page_table,
}
use pand_aossh.Support.Init.{Sys, uproc_state, launch_uproc, uprocmax}
use pand_aossh.Support.Sys.{
  Leave, ldst, do_execute, give_result, sup_syscall_handler, general_exception_handler,
}
use pand_aossh.Support.Sys.Handler.{behind}

-- The U-proc is created in its first state with a fresh page table, the others keep theirs, and the
-- caller waits for its end.
pub record Launched (asid : ℕ) (s t : Sys) : Type 0 where
  pub made :
      t.vm.trace
      ≡ s.vm.trace ++ create_process (uproc_state asid) 0 asid ∷ passeren shell_semaphore ∷ []
  pub fresh : (p : ℕ) → p < 32 → t.vm.page_tables asid p ≡ page_entry asid p
  pub others : (b : ℕ) → b ≢ asid → t.vm.page_tables b ≡ s.vm.page_tables b
  pub named : t.asids asid ≡ asid

-- An ASID from 1 to 8.
abbrev pub is_asid : ℕ → Bool
is_asid asid = leb 1 asid && leb asid 8

-- What the handler does for an ASID, as it is one or not.
abbrev pub Executes : (valid : Bool) → State → Sys → Leave × Sys → Type 0
Executes true state s (leave, t) = (leave ≡ ldst (behind state 0)) × Launched state.reg_a1 s t
Executes false state s (leave, t) = (leave ≡ ldst (behind state (minus 1))) × (t ≡ s)

do_execute-Launched :
    (asid : ℕ) (s : Sys)
    → is_asid asid ≡ true
    → ((do_execute asid s).0 ≡ 0) × Launched asid s (do_execute asid s).1
unfolding do_execute launch_uproc init_uproc_page_table
do_execute-Launched asid s h =
    let valid : (is_neg asid || (asid == 0) || ltb uprocmax asid) ≡ false = ground arith in
    rw valid (
      refl,
      record {
        made =
            append_assoc s.vm.trace (create_process (uproc_state asid) 0 asid ∷ [])
              (passeren shell_semaphore ∷ []);
        fresh = λ p b. ground arith;
        others = λ b n. ground (arith, n);
        named = ground arith;
      },
    )

do_execute-refused : (asid : ℕ) (s : Sys) → is_asid asid ≡ false → do_execute asid s ≡ (minus 1, s)
unfolding do_execute
do_execute-refused asid s h =
    let invalid : (is_neg asid || (asid == 0) || ltb uprocmax asid) ≡ true = ground arith in
    rw invalid refl

do_execute-Executes :
    (state : State) (s : Sys)
    → Executes
        (is_asid state.reg_a1)
        state
        s
        (give_result state (some (do_execute state.reg_a1 s).0, (do_execute state.reg_a1 s).1))
do_execute-Executes state s = elim (Bool-cases (is_asid state.reg_a1)) [
  | inl e ↦
      let (zero, launched) = do_execute-Launched state.reg_a1 s e in
      rw (e, Executes) (ap (λ v. ldst (behind state v)) zero, launched)
  | inr e ↦
      let same = do_execute-refused state.reg_a1 s e in
      rw (e, Executes)
        (ap (λ (r : ℕ × Sys). ldst (behind state r.0)) same, ap (λ (r : ℕ × Sys). r.1) same)
]

-- SYS6 through the general exception handler. For an ASID from 1 to 8 a U-proc is created in its
-- first state with a fresh page table, no other page table changes, the caller waits for its end and
-- then goes on with 0. For any other word, read as an int, the caller goes on with -1 and nothing
-- changes.
pub handler-Executes :
    (fuel asid : ℕ) (state : State) (s : Sys)
    → state.cause % 256 ≡ 8
    → state.reg_a0 ≡ 6
    → Executes (is_asid state.reg_a1) state s (general_exception_handler fuel asid state s)
unfolding general_exception_handler sup_syscall_handler
handler-Executes fuel asid state s c a =
    let not_2 : (state.reg_a0 == 2) ≡ false = ground arith in
    let not_4 : (state.reg_a0 == 4) ≡ false = ground arith in
    let not_5 : (state.reg_a0 == 5) ≡ false = ground arith in
    rw (eq→== _ 8 c, not_2, not_4, not_5, eq→== _ 6 a) (do_execute-Executes state s)
