-- ===== src/Nucleus/Running/Services.antt =====
-- Every service of the Nucleus leaves it settled.
use pand_aossh.Prelude.{
  ℕ, ◌≡◌, refl, ◌∙◌, ◌&&◌, ◌||◌, Option, none, some, ◌==◌, Option-split, if-split, inl, inr,
  ==_refl,
}
use pand_aossh.Prelude.Words.{is_neg}
use pand_aossh.Phase1.Pcb.{alloc_pcb}
use pand_aossh.Phase1.Asl.{remove_blocked}
use pand_aossh.Nucleus.Globals.{
  Kernel, ldst, panic, out_of_fuel, update_cpu_time, pcb_of, active_procs_add, copy_state, dec_mem,
  inc_mem,
}
use pand_aossh.Nucleus.Scheduler.{scheduler}
use pand_aossh.Nucleus.Process.{block, block_current_process, terminate}
use pand_aossh.Nucleus.PassUp.{die, pass_up, pass_up_or_die, generalexcept}
use pand_aossh.Nucleus.Syscalls.{
  create_process, create_with, term_process, term_target, after_term, clear_self, passeren, wake,
  release, verhogen, doio, get_time, clock_wait, get_support_ptr, return_to, get_process_id, yield,
  service, syscall_handler, from_user,
}
use pand_aossh.Nucleus.Syscalls.Cases.{service_cases, clear_self_cases}
use pand_aossh.Nucleus.Running.{
  Settled, scheduler-Settled, Stays, update_cpu_time-Stays, KeepsYielder, terminate-KeepsYielder,
}

block_current_process-Settled :
    (sem : ℕ) (k : Kernel) → k.yielded_process ≡ none → Settled (block_current_process sem k)
unfolding block_current_process
block_current_process-Settled sem k y =
    Option-split Settled k.current_process (k, panic) (λ p. scheduler (block sem p k))
      (λ c. (y, tt)) (λ p c. scheduler-Settled (block sem p k))

die-Settled : (k : Kernel) → k.yielded_process ≡ none → Settled (die k)
unfolding die
die-Settled k y =
    Option-split Settled _ (k, out_of_fuel)
      (λ (t : Kernel). scheduler (record t { current_process = none })) (λ _. (y, tt))
      (λ t _. scheduler-Settled (record t { current_process = none }))

passed_context :
    (p type : ℕ) (k : Kernel)
    → ((pass_up type (pcb_of k p).p_support_struct k).0.supports
          (pcb_of k p).p_support_struct).sup_except_context
        type
      ≡ (k.supports (pcb_of k p).p_support_struct).sup_except_context type
unfolding pass_up
passed_context p type k = let r = ==_refl (pcb_of k p).p_support_struct in rw r refl

pub pass_up_or_die-Settled :
    (type : ℕ) (k : Kernel) → k.yielded_process ≡ none → Settled (pass_up_or_die type k)
unfolding pass_up_or_die pass_up
pass_up_or_die-Settled type k y =
    Option-split Settled k.current_process (die k) _ (λ c. die-Settled k y)
      (λ p c.
        if-split Settled ((pcb_of k p).p_support_struct == 0) _ _ (λ _. die-Settled k y)
          (λ _. (y, (p, c, (type, passed_context p type k)))))

wake-Stays : (o : Option ℕ) (k : Kernel) → Stays k (wake o k)
unfolding wake
wake-Stays none k = (refl, refl)
wake-Stays (some u) k = (refl, refl)

pub release-Stays : (sem : ℕ) (k : Kernel) → Stays k (release sem k)
unfolding release
release-Stays sem k =
    let r = remove_blocked sem k.phase1 in wake-Stays r.0 (record k { phase1 = r.1 })

-- The running process p, when a service starts.
module _ (p : ℕ) (k : Kernel) (y : k.yielded_process ≡ none) (c : k.current_process ≡ some p) where
  create_with-Settled : (o : Option ℕ) (t : Kernel) → Stays k t → Settled (create_with p o t)
  unfolding create_with
  create_with-Settled none t (ty, tc) = (ty ∙ y, (p, tc ∙ c, inr refl))
  create_with-Settled (some child) t (ty, tc) =
      Option-split Settled (active_procs_add child t.active_procs) _ _ (λ _. (ty ∙ y, tt))
        (λ procs _. scheduler-Settled _)

  create_process-Settled : Settled (create_process p k)
  unfolding create_process
  create_process-Settled = create_with-Settled (alloc_pcb k.phase1).0 _ (refl, refl)

  after_term-Settled : (t : Kernel) → t.yielded_process ≡ none → Settled (after_term t)
  unfolding after_term
  after_term-Settled t ty =
      Option-split Settled t.current_process (scheduler t) (λ q. return_to q t)
        (λ _. scheduler-Settled t) (λ q e. (ty, (q, e, inr refl)))

  term_target-Settled : (o : Option ℕ) (t : Kernel) → Stays k t → Settled (term_target o t)
  unfolding term_target
  term_target-Settled none t (ty, tc) = (ty ∙ y, (p, tc ∙ c, inr refl))
  term_target-Settled (some q) t (ty, tc) = after (terminate q t) (terminate-KeepsYielder q t)
    where
      after :
          (r : Option Kernel)
          → KeepsYielder t r
          → Settled (elim r [
            | none ↦ (t, out_of_fuel)
            | some u ↦ after_term (clear_self q t.current_process u)
          ])
      after none h = (ty ∙ y, tt)
      after (some u) h =
          clear_self_cases (λ u. Settled (after_term u)) q t.current_process u
            (after_term-Settled u (h ∙ ty ∙ y))
            (λ _. after_term-Settled (record u { current_process = none }) (h ∙ ty ∙ y))

  term_process-Settled : Settled (term_process k)
  unfolding term_process
  term_process-Settled = term_target-Settled _ (update_cpu_time k) (update_cpu_time-Stays k)

  passeren-Settled : Settled (passeren p k)
  unfolding passeren
  passeren-Settled =
      let (uy, uc) = update_cpu_time-Stays k in
      let sem = k.saved_state.reg_a1 in
      let k1 = dec_mem sem (copy_state p k.saved_state (update_cpu_time k)) in
      if-split Settled (is_neg (k1.mem sem)) _ _
        (λ _. block_current_process-Settled sem k1 (uy ∙ y)) (λ _. (uy ∙ y, (p, uc ∙ c, inl refl)))

  verhogen-Settled : Settled (verhogen p k)
  unfolding verhogen
  verhogen-Settled =
      let (uy, uc) = update_cpu_time-Stays k in
      let sem = k.saved_state.reg_a1 in
      let k1 = inc_mem sem (copy_state p k.saved_state (update_cpu_time k)) in
      let v = k1.mem sem in
      let (ry, rc) = release-Stays sem k1 in
      if-split (λ (t : Kernel). Settled (t, ldst (pcb_of t p).p_s)) (is_neg v || (v == 0))
        (release sem k1) k1 (λ _. (ry ∙ uy ∙ y, (p, rc ∙ uc ∙ c, inl refl)))
        (λ _. (uy ∙ y, (p, uc ∙ c, inl refl)))

  doio-Settled : Settled (doio p k)
  unfolding doio
  doio-Settled = block_current_process-Settled _ _ ((update_cpu_time-Stays k).0 ∙ y)

  clock_wait-Settled : Settled (clock_wait p k)
  unfolding clock_wait
  clock_wait-Settled = block_current_process-Settled _ _ ((update_cpu_time-Stays k).0 ∙ y)

  yield-Settled : Settled (yield p k)
  unfolding yield
  yield-Settled = scheduler-Settled _

  asks-Settled :
      Settled (get_time p k) × Settled (get_support_ptr p k) × Settled (get_process_id p k)
  unfolding get_time get_support_ptr get_process_id
  asks-Settled =
      let (uy, uc) = update_cpu_time-Stays k in
      ((uy ∙ y, (p, uc ∙ c, inr refl)), (y, (p, c, inr refl)), (y, (p, c, inr refl)))

service-Settled :
    (code p : ℕ) (k : Kernel)
    → k.yielded_process ≡ none
    → k.current_process ≡ some p
    → Settled (service code k)
service-Settled code p k y c = service_cases Settled k code (record {
  faulted = λ e. absurd cc;
  created = λ p c. create_process-Settled p k y c;
  terminated = term_process-Settled p k y c;
  waited = λ _ p c. passeren-Settled p k y c;
  signalled = λ _ p c. verhogen-Settled p k y c;
  did_io = λ _ p c. doio-Settled p k y c;
  timed = λ p c. (asks-Settled p k y c).0;
  clocked = λ p c. clock_wait-Settled p k y c;
  supported = λ p c. (asks-Settled p k y c).1;
  identified = λ p c. (asks-Settled p k y c).2;
  yielded = λ p c. yield-Settled p k y c;
  passed = pass_up_or_die-Settled generalexcept k y;
})

pub syscall_handler-Settled :
    (p : ℕ) (k : Kernel)
    → k.yielded_process ≡ none
    → k.current_process ≡ some p
    → Settled (syscall_handler k)
unfolding syscall_handler
syscall_handler-Settled p k y c =
    let code = k.saved_state.reg_a0 in
    if-split Settled (from_user k.saved_state && is_neg code) _ _
      (λ _.
        pass_up_or_die-Settled generalexcept
          (record k { saved_state = record k.saved_state { cause = 10 } }) y)
      (λ _.
        if-split Settled (is_neg code || (code == 0)) _ _ (λ _. service-Settled code p k y c)
          (λ _. pass_up_or_die-Settled generalexcept k y))
