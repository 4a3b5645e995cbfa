-- ===== src/Nucleus/Syscalls/Cases.antt =====
-- What holds of the result of every service holds of the dispatch.
use pand_aossh.Prelude.{ℕ, ◌≡◌, sym, ap, Option, ◌==◌, if-split, Option-split, ==→eq, none, some}
use pand_aossh.Prelude.Words.{minus}
use pand_aossh.Nucleus.Globals.{Kernel, Outcome, fault}
use pand_aossh.Nucleus.PassUp.{pass_up_or_die, generalexcept}
use pand_aossh.Nucleus.Syscalls.{
  create_process, term_process, passeren, verhogen, doio, get_time, clock_wait, get_support_ptr,
  get_process_id, yield, service, with_current, clear_self,
}

-- Clearing `currentProcess` or not.
pub clear_self_cases :
    (P : Kernel → Type 0) (t : ℕ) (o : Option ℕ) (k : Kernel)
    → P k
    → (o ≡ some t → P (record k { current_process = none }))
    → P (clear_self t o k)
clear_self_cases P t none k h g = h
clear_self_cases P t (some c) k h g =
    if-split P (t == c) (record k { current_process = none }) k
      (λ e. g (ap some (sym (==→eq t c e)))) (λ _. h)

-- The ten services and the two other ways out of the switch, at the kernel k; a wait has the code -3, a signal -4, and I/O -5.
pub record Services (P : Kernel × Outcome → Type 0) (k : Kernel) (code : ℕ) : Type 0 where
  pub faulted : k.current_process ≡ none → P (k, fault)
  pub created : (p : ℕ) → k.current_process ≡ some p → P (create_process p k)
  pub terminated : P (term_process k)
  pub waited : code ≡ minus 3 → (p : ℕ) → k.current_process ≡ some p → P (passeren p k)
  pub signalled : code ≡ minus 4 → (p : ℕ) → k.current_process ≡ some p → P (verhogen p k)
  pub did_io : code ≡ minus 5 → (p : ℕ) → k.current_process ≡ some p → P (doio p k)
  pub timed : (p : ℕ) → k.current_process ≡ some p → P (get_time p k)
  pub clocked : (p : ℕ) → k.current_process ≡ some p → P (clock_wait p k)
  pub supported : (p : ℕ) → k.current_process ≡ some p → P (get_support_ptr p k)
  pub identified : (p : ℕ) → k.current_process ≡ some p → P (get_process_id p k)
  pub yielded : (p : ℕ) → k.current_process ≡ some p → P (yield p k)
  pub passed : P (pass_up_or_die generalexcept k)

module _ (P : Kernel × Outcome → Type 0) (k : Kernel) where
  with_current_cases :
      (f : ℕ → Kernel → Kernel × Outcome)
      → (k.current_process ≡ none → P (k, fault))
      → ((p : ℕ) → k.current_process ≡ some p → P (f p k))
      → P (with_current f k)
  with_current_cases f none_h some_h =
      Option-split P k.current_process (k, fault) (λ p. f p k) none_h some_h

  pub service_cases : (code : ℕ) → Services P k code → P (service code k)
  unfolding service
  service_cases code h =
      let run = λ (f : ℕ → Kernel → Kernel × Outcome). with_current_cases f h.faulted in
      if-split P (code == minus 1) _ _ (λ _. run create_process h.created)
        λ _.
          if-split P (code == minus 2) _ _ (λ _. h.terminated)
            λ _.
              if-split P (code == minus 3) _ _
                (λ e. run passeren (h.waited (==→eq code (minus 3) e)))
                λ _.
                  if-split P (code == minus 4) _ _
                    (λ e. run verhogen (h.signalled (==→eq code (minus 4) e)))
                    λ _.
                      if-split P (code == minus 5) _ _
                        (λ e. run doio (h.did_io (==→eq code (minus 5) e)))
                        λ _.
                          if-split P (code == minus 6) _ _ (λ _. run get_time h.timed)
                            λ _.
                              if-split P (code == minus 7) _ _ (λ _. run clock_wait h.clocked)
                                λ _.
                                  if-split P (code == minus 8) _ _
                                    (λ _. run get_support_ptr h.supported)
                                    λ _.
                                      if-split P (code == minus 9) _ _
                                        (λ _. run get_process_id h.identified)
                                        λ _.
                                          if-split P (code == minus 10) _ _
                                            (λ _. run yield h.yielded) (λ _. h.passed)
