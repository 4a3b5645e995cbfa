-- ===== src/Nucleus/Places/Handlers.antt =====
-- The exception handler of the Nucleus keeps each block in one place.
use pand_aossh.Prelude.{
  ℕ, ◌%◌, ◌≡◌, ◌≢◌, sym, ◌∙◌, ap, true, ◌&&◌, ◌||◌, none, some, [], ◌==◌, arith, if-split, inl, inr,
  ◌⊎◌,
}
use pand_aossh.Prelude.Words.{is_neg, minus}
use pand_aossh.Types.{State}
use pand_aossh.Nucleus.Globals.{Kernel, update_cpu_time}
use pand_aossh.Nucleus.PassUp.{pgfaultexcept, generalexcept}
use pand_aossh.Nucleus.Syscalls.{service, syscall_handler, from_user}
use pand_aossh.Nucleus.Syscalls.Cases.{service_cases}
use pand_aossh.Nucleus.Exceptions.{exception_handler, advance_pc, is_tlb_code}
use pand_aossh.Nucleus.Running.{update_cpu_time-Stays}
use pand_aossh.Nucleus.Running.Handlers.{is_interrupt}
use pand_aossh.Nucleus.Places.{PlacedIn}
use pand_aossh.Nucleus.Places.Choice.{IsSound, update_cpu_time-PlacedIn}
use pand_aossh.Nucleus.Places.Creation.{create_process-IsSound}
use pand_aossh.Nucleus.Places.Services.{
  passeren-IsSound, verhogen-IsSound, doio-IsSound, clock_wait-IsSound, yield-IsSound, asks-IsSound,
}
use pand_aossh.Nucleus.Places.Dying.{
  IsNamed, update_cpu_time-IsNamed, pass_up_or_die-IsSound, term_process-IsSound,
}
use pand_aossh.Nucleus.Places.Interrupts.{interrupt_handler-IsSound}

-- What the kernel is entered with: the device semaphores do not start at the address 0, a process
-- that asks to wait names a semaphore, and no process that runs has the process id -1, which the
-- kernel writes into dying processes and the counter of ids reaches after 2^32 - 1 of them.
pub record IsProper (k : Kernel) : Type 0 where
  pub devices : k.dev_sems ≢ 0
  pub semaphore : k.saved_state.reg_a0 ≡ minus 3 → k.saved_state.reg_a1 ≢ 0
  pub named : IsNamed k

module _ (p : ℕ) (k : Kernel) (v : PlacedIn [] k) (y : k.yielded_process ≡ none)
    (c : k.current_process ≡ some p) (h : IsProper k) where
  service-IsSound : IsSound (service k.saved_state.reg_a0 k)
  service-IsSound = service_cases IsSound k k.saved_state.reg_a0 (record {
    faulted = λ n. absurd cc;
    created = λ p c. create_process-IsSound p k v y c;
    terminated = term_process-IsSound k v y h.named;
    waited = λ e p c. passeren-IsSound p k v y c (h.semaphore e);
    signalled = λ _ p c. verhogen-IsSound p k v y c;
    did_io = λ _ p c. doio-IsSound p k v y c h.devices;
    timed = λ p c. (asks-IsSound p k v y c).0;
    clocked = λ p c. clock_wait-IsSound p k v y c h.devices;
    supported = λ p c. (asks-IsSound p k v y c).1;
    identified = λ p c. (asks-IsSound p k v y c).2;
    yielded = λ p c. yield-IsSound p k v y c;
    passed = pass_up_or_die-IsSound generalexcept k v y h.named;
  })

  syscall_handler-IsSound : IsSound (syscall_handler k)
  unfolding syscall_handler
  syscall_handler-IsSound =
      let code = k.saved_state.reg_a0 in
      if-split IsSound (from_user k.saved_state && is_neg code) _ _
        (λ _.
          pass_up_or_die-IsSound generalexcept
            (record k { saved_state = record k.saved_state { cause = 10 } }) v y h.named)
        (λ _.
          if-split IsSound (is_neg code || (code == 0)) _ _ (λ _. service-IsSound)
            (λ _. pass_up_or_die-IsSound generalexcept k v y h.named))

update_cpu_time-same :
    (k : Kernel)
    → ((update_cpu_time k).dev_sems ≡ k.dev_sems)
      × ((update_cpu_time k).saved_state ≡ k.saved_state)
unfolding update_cpu_time
update_cpu_time-same k = ground arith

-- The handler of exceptions and interrupts keeps each block in one place.
pub exception_handler-IsSound :
    (k : Kernel)
    → PlacedIn [] k
    → k.yielded_process ≡ none
    → IsProper k
    → (is_interrupt k ≡ true) ⊎ ((p : ℕ) × (k.current_process ≡ some p))
    → IsSound (exception_handler k)
unfolding exception_handler advance_pc
exception_handler-IsSound k v y h runs =
    let t = update_cpu_time k in
    let w = update_cpu_time-PlacedIn k v in
    let (ty, tc) = update_cpu_time-Stays k in
    let z : t.yielded_process ≡ none = ty ∙ y in
    let same = update_cpu_time-same k in
    let n = update_cpu_time-IsNamed k h.named in
    let code = k.saved_state.cause % 256 in
    if-split IsSound (is_interrupt k) _ _ (λ _. interrupt_handler-IsSound t w z)
      (λ e.
        if-split IsSound ((code == 8) || (code == 11)) _ _
          (λ _. elim runs [
            | inl i ↦ absurd cc
            | inr (p, c) ↦ syscall_handler-IsSound p (advance_pc t) w z (tc ∙ c) (record {
              devices = λ e. h.devices (sym same.0 ∙ e);
              semaphore = λ e d.
                  h.semaphore (ap (λ (s : State). s.reg_a0) (sym same.1) ∙ e)
                    (ap (λ (s : State). s.reg_a1) (sym same.1) ∙ d);
              named = n;
            })
          ])
          (λ _.
            if-split IsSound (is_tlb_code code) _ _
              (λ _. pass_up_or_die-IsSound pgfaultexcept t w z n)
              (λ _. pass_up_or_die-IsSound generalexcept t w z n)))
