-- ===== src/Nucleus/Running/Handlers.antt =====
-- Every way through the exception handler of the Nucleus leaves it settled.
use pand_aossh.Prelude.{
  ℕ, ◌%◌, ◌/◌, ◌^◌, ◌≡◌, ◌∙◌, Bool, true, ◌||◌, none, some, ◌==◌, if-split, inl, inr, ◌⊎◌,
}
use pand_aossh.Nucleus.Globals.{Kernel, update_cpu_time}
use pand_aossh.Nucleus.PassUp.{pgfaultexcept, generalexcept}
use pand_aossh.Nucleus.Exceptions.{exception_handler, advance_pc, is_tlb_code}
use pand_aossh.Nucleus.Running.{Settled, update_cpu_time-Stays}
use pand_aossh.Nucleus.Running.Services.{pass_up_or_die-Settled, syscall_handler-Settled}
use pand_aossh.Nucleus.Running.Interrupts.{interrupt_handler-Settled}

-- The bit of the cause register that tells interrupts from exceptions.
abbrev pub is_interrupt : Kernel → Bool
is_interrupt k = k.saved_state.cause / 2 ^ 31 % 2 == 1

-- When nobody has yielded and a process runs, or what comes is an interrupt, the exception handler
-- leaves the Nucleus settled: nobody has yielded, the current process is set when a process is
-- loaded or the exception is passed up, it is NULL when the processor waits, and no service meets a
-- NULL process.
pub exception_handler-Settled :
    (k : Kernel)
    → k.yielded_process ≡ none
    → (is_interrupt k ≡ true) ⊎ ((p : ℕ) × (k.current_process ≡ some p))
    → Settled (exception_handler k)
unfolding exception_handler advance_pc
exception_handler-Settled k y h =
    let t = update_cpu_time k in
    let code = k.saved_state.cause % 256 in
    let (ty, tc) = update_cpu_time-Stays k in
    if-split Settled (is_interrupt k) _ _ (λ _. interrupt_handler-Settled t (ty ∙ y))
      (λ i.
        if-split Settled ((code == 8) || (code == 11)) _ _
          (λ _. elim h [
            | inl e ↦ absurd cc
            | inr (p, c) ↦ syscall_handler-Settled p (advance_pc t) (ty ∙ y) (tc ∙ c)
          ])
          (λ _.
            if-split Settled (is_tlb_code code) _ _
              (λ _. pass_up_or_die-Settled pgfaultexcept t (ty ∙ y))
              (λ _. pass_up_or_die-Settled generalexcept t (ty ∙ y))))
