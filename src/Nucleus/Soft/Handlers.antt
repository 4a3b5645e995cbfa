-- ===== src/Nucleus/Soft/Handlers.antt =====
-- The exception handler of the Nucleus keeps the count of the processes that wait for a device or the
-- clock.
use pand_aossh.Prelude.{
  ℕ, ◌+◌, ◌*◌, ◌%◌, ◌≡◌, ◌≢◌, sym, ◌∙◌, ap, subst, true, false, ◌&&◌, ◌||◌, none, some, [], ◌==◌,
  arith, if-split, inl, inr, ◌⊎◌,
}
use pand_aossh.Prelude.Words.{is_neg, minus}
use pand_aossh.Types.{State}
use pand_aossh.Nucleus.Globals.{Kernel, update_cpu_time, pseudoclk_sem}
use pand_aossh.Nucleus.PassUp.{pgfaultexcept, generalexcept}
use pand_aossh.Nucleus.Syscalls.{service, syscall_handler, from_user, doio_sem}
use pand_aossh.Nucleus.Syscalls.Cases.{service_cases}
use pand_aossh.Nucleus.Exceptions.{exception_handler, advance_pc, is_tlb_code}
use pand_aossh.Nucleus.Running.{update_cpu_time-Stays}
use pand_aossh.Nucleus.Running.Handlers.{is_interrupt}
use pand_aossh.Nucleus.Places.{PlacedIn}
use pand_aossh.Nucleus.Places.Choice.{update_cpu_time-PlacedIn}
use pand_aossh.Nucleus.Places.Dying.{IsNamed, update_cpu_time-IsNamed}
use pand_aossh.Nucleus.Places.Handlers.{IsProper}
use pand_aossh.Nucleus.Soft.{is_soft, IsCounted, Counted}
use pand_aossh.Nucleus.Soft.Steps.{update_cpu_time-IsCounted}
use pand_aossh.Nucleus.Soft.Services.{
  passeren-IsCounted, verhogen-IsCounted, doio-IsCounted, clock_wait-IsCounted, yield-IsCounted,
  asks-IsCounted,
}
use pand_aossh.Nucleus.Soft.Processes.{
  create_process-IsCounted, term_process-IsCounted, pass_up_or_die-IsCounted,
}
use pand_aossh.Nucleus.Soft.Interrupts.{interrupt_handler-IsCounted}

-- How the semaphores of the devices and of the clock are used: besides the conditions of IsProper, no
-- PASSEREN is on the clock's, no VERHOGEN is on one of them, and no address given to DOIO leads to the
-- clock's.
pub record IsSoftProper (k : Kernel) : Type 0 where
  pub proper : IsProper k
  pub waits : k.saved_state.reg_a0 ≡ minus 3 → k.saved_state.reg_a1 ≢ k.dev_sems + 4 * pseudoclk_sem
  pub signals : k.saved_state.reg_a0 ≡ minus 4 → is_soft k.dev_sems k.saved_state.reg_a1 ≡ false
  pub io : k.saved_state.reg_a0 ≡ minus 5 → doio_sem k.saved_state.reg_a1 ≢ pseudoclk_sem

module _ (base p : ℕ) (k : Kernel) (v : PlacedIn [] k) (y : k.yielded_process ≡ none)
    (c : k.current_process ≡ some p) (n : IsCounted base k) (h : IsSoftProper k) where
  service-IsCounted : Counted base (service k.saved_state.reg_a0 k)
  service-IsCounted =
      let z : base ≢ 0 = λ e. h.proper.devices (n.0 ∙ e) in
      service_cases (Counted base) k k.saved_state.reg_a0 (record {
        faulted = λ _. n;
        created = λ p c. create_process-IsCounted base p k v n;
        terminated = term_process-IsCounted base k v y n;
        waited = λ e p c.
            passeren-IsCounted base p k v y c n (h.proper.semaphore e)
              (subst (λ b. k.saved_state.reg_a1 ≢ b + 4 * pseudoclk_sem) n.0 (h.waits e));
        signalled = λ e p c.
            verhogen-IsCounted base p k v y c n
              (subst (λ b. is_soft b k.saved_state.reg_a1 ≡ false) n.0 (h.signals e));
        did_io = λ e p c. doio-IsCounted base p k v y c n z (h.io e);
        timed = λ p c. (asks-IsCounted base p k v y c n).0;
        clocked = λ p c. clock_wait-IsCounted base p k v y c n z;
        supported = λ p c. (asks-IsCounted base p k v y c n).1;
        identified = λ p c. (asks-IsCounted base p k v y c n).2;
        yielded = λ p c. yield-IsCounted base p k v y c n;
        passed = pass_up_or_die-IsCounted base k v y n generalexcept;
      })

  syscall_handler-IsCounted : Counted base (syscall_handler k)
  unfolding syscall_handler
  syscall_handler-IsCounted =
      let code = k.saved_state.reg_a0 in
      if-split (Counted base) (from_user k.saved_state && is_neg code) _ _
        (λ _.
          pass_up_or_die-IsCounted base
            (record k { saved_state = record k.saved_state { cause = 10 } }) v y n generalexcept)
        (λ _.
          if-split (Counted base) (is_neg code || (code == 0)) _ _ (λ _. service-IsCounted)
            (λ _. pass_up_or_die-IsCounted base k v y n generalexcept))

-- What the dispatch of the services reads is as it was.
update_cpu_time-asks :
    (k : Kernel)
    → ((update_cpu_time k).dev_sems ≡ k.dev_sems)
      × ((update_cpu_time k).saved_state ≡ k.saved_state)
unfolding update_cpu_time
update_cpu_time-asks k = ground arith

advanced-IsSoftProper :
    (k t : Kernel)
    → t.dev_sems ≡ k.dev_sems
    → t.saved_state ≡ k.saved_state
    → IsNamed t
    → IsSoftProper k
    → IsSoftProper (advance_pc t)
unfolding advance_pc
advanced-IsSoftProper k t d s named h =
    let a0 : t.saved_state.reg_a0 ≡ k.saved_state.reg_a0 = ap (λ (r : State). r.reg_a0) s in
    let a1 : t.saved_state.reg_a1 ≡ k.saved_state.reg_a1 = ap (λ (r : State). r.reg_a1) s in
    record {
      proper = record {
        devices = λ e. h.proper.devices (sym d ∙ e);
        semaphore = λ e z. h.proper.semaphore (sym a0 ∙ e) (sym a1 ∙ z);
        named = named;
      };
      waits = λ e z. h.waits (sym a0 ∙ e) (sym a1 ∙ z ∙ ap (λ b. b + 4 * pseudoclk_sem) d);
      signals = λ e.
          ap (is_soft t.dev_sems) a1
          ∙ ap (λ b. is_soft b k.saved_state.reg_a1) d
          ∙ h.signals (sym a0 ∙ e);
      io = λ e z. h.io (sym a0 ∙ e) (ap doio_sem (sym a1) ∙ z);
    }

-- The handler of exceptions and interrupts keeps the count.
pub exception_handler-IsCounted :
    (base : ℕ) (k : Kernel)
    → PlacedIn [] k
    → k.yielded_process ≡ none
    → IsCounted base k
    → IsSoftProper k
    → (is_interrupt k ≡ true) ⊎ ((p : ℕ) × (k.current_process ≡ some p))
    → Counted base (exception_handler k)
unfolding exception_handler advance_pc
exception_handler-IsCounted base k v y n h runs =
    let t = update_cpu_time k in
    let w = update_cpu_time-PlacedIn k v in
    let (ty, tc) = update_cpu_time-Stays k in
    let z : t.yielded_process ≡ none = ty ∙ y in
    let m = update_cpu_time-IsCounted base k n in
    let same = update_cpu_time-asks k in
    let named = update_cpu_time-IsNamed k h.proper.named in
    let code = k.saved_state.cause % 256 in
    if-split (Counted base) (is_interrupt k) _ _ (λ _. interrupt_handler-IsCounted base t w m)
      (λ e.
        if-split (Counted base) ((code == 8) || (code == 11)) _ _
          (λ _. elim runs [
            | inl i ↦ absurd cc
            | inr (p, c) ↦
                syscall_handler-IsCounted base p (advance_pc t) w z (tc ∙ c) m
                  (advanced-IsSoftProper k t same.0 same.1 named h)
          ])
          (λ _.
            if-split (Counted base) (is_tlb_code code) _ _
              (λ _. pass_up_or_die-IsCounted base t w z m pgfaultexcept)
              (λ _. pass_up_or_die-IsCounted base t w z m generalexcept)))
