-- ===== src/Nucleus/Soft/Processes.antt =====
-- Creating and ending processes keeps the count of those that wait for a device or the clock.
use pand_aossh.Prelude.{
  ℕ, ◌≤◌, ◌≡◌, refl, sym, ap, ◌∙◌, Option, none, some, List, [], ◌∷◌, arith, ◌==◌, Option-split,
  ==_refl, if-split,
}
use pand_aossh.Prelude.Words.{minus}
use pand_aossh.Prelude.Counts.{occurs}
use pand_aossh.Phase1.Pcb.{alloc_pcb, alloc_from, fresh_pcb}
use pand_aossh.Nucleus.Globals.{
  Kernel, panic, out_of_fuel, update_cpu_time, modify_pcb, pcb_of, active_procs_add,
}
use pand_aossh.Nucleus.Scheduler.{scheduler}
use pand_aossh.Nucleus.Process.{terminate}
use pand_aossh.Nucleus.PassUp.{die, pass_up, pass_up_or_die}
use pand_aossh.Nucleus.Syscalls.{
  create_process, create_with, start_child, return_to, term_process, term_target, after_term,
  clear_self,
}
use pand_aossh.Nucleus.Syscalls.Cases.{clear_self_cases}
use pand_aossh.Nucleus.Running.{update_cpu_time-Stays}
use pand_aossh.Nucleus.Places.{PlacedIn, IsLive, free}
use pand_aossh.Nucleus.Places.Birth.{nowhere}
use pand_aossh.Nucleus.Places.Choice.{update_cpu_time-PlacedIn}
use pand_aossh.Nucleus.Places.Family.{insert_child-OnlyFamilies}
use pand_aossh.Nucleus.Places.Outlives.{Ended}
use pand_aossh.Nucleus.Places.Ends.{terminate-Ended}
use pand_aossh.Nucleus.Places.Dying.{current-IsLive, target-IsLive}
use pand_aossh.Nucleus.Soft.{
  soft_waiters, IsCounted, Counted, KeepsCount, KeepsCount-IsCounted, write_soft,
}
use pand_aossh.Nucleus.Soft.Steps.{scheduler-IsCounted, update_cpu_time-IsCounted, write-IsCounted}

start_child-KeepsCount :
    (p child : ℕ) (procs : List (Option ℕ)) (k : Kernel)
    → KeepsCount k (start_child p child procs k)
unfolding start_child
start_child-KeepsCount p child procs k =
    let only = insert_child-OnlyFamilies p child k.phase1 in
    record {
      waits = record {
        semds = only.semds.0;
        sems = λ a. let e = only.sems a in let f = only.sems p in ground (arith, e, f);
      };
      devices = refl;
      count = refl;
    }

module _ (base p : ℕ) (k : Kernel) (v : PlacedIn [] k) (n : IsCounted base k) where
  create_with-IsCounted :
      (l : List ℕ)
      → k.phase1.pcb_free ≡ l
      → IsCounted base
          (create_with p
            (alloc_from l k.phase1).0
            (record k { phase1 = (alloc_from l k.phase1).1 })).0
  unfolding create_with alloc_from
  create_with-IsCounted [] e =
      write-IsCounted base p _
        (record k { saved_state = record k.saved_state { reg_a0 = minus 1 } }) refl n
  create_with-IsCounted (child ∷ rest) e =
      let s = k.phase1 in
      let r = ==_refl child in
      let here : 1 ≤ free s child = let o = ap (occurs child) e in ground (arith, o, r) in
      let nowhere_child = nowhere s child v here in
      let k1 : Kernel = record k { phase1 = (alloc_from (child ∷ rest) s).1 } in
      let alloc : soft_waiters base k1.phase1 ≡ soft_waiters base s =
        write_soft base s child (fresh_pcb s.next_pid (s.table child)) (nowhere_child _)
          (nowhere_child 0) in
      let k2 =
        modify_pcb child
          (λ c. record c {
            p_s = k.user_states k.saved_state.reg_a1;
            p_support_struct = k.saved_state.reg_a3;
            p_prio = k.saved_state.reg_a2;
          })
          k1 in
      let m : IsCounted base k2 = write-IsCounted base child _ k1 refl (n.0, n.1 ∙ sym alloc) in
      Option-split (Counted base) (active_procs_add child k.active_procs) (k2, panic)
        (λ procs. scheduler (start_child p child procs k2)) (λ _. m)
        (λ procs _.
          scheduler-IsCounted base (start_child p child procs k2)
            (KeepsCount-IsCounted base k2 _ (start_child-KeepsCount p child procs k2) m))

  pub create_process-IsCounted : IsCounted base (create_process p k).0
  unfolding create_process alloc_pcb
  create_process-IsCounted = create_with-IsCounted k.phase1.pcb_free refl

-- A result of `terminateProcess` keeps the count.
abbrev Counts : (base : ℕ) → Option Kernel → Type 0
Counts base none = Unit {0}
Counts base (some t) = IsCounted base t

Ended-Counts :
    (base p : ℕ) (k : Kernel) (r : Option Kernel) → IsCounted base k → Ended p k r → Counts base r
Ended-Counts base p k none n h = tt
Ended-Counts base p k (some t) n (o, _) = o.counted base n

module _ (base : ℕ) (k : Kernel) (v : PlacedIn [] k) (y : k.yielded_process ≡ none)
    (n : IsCounted base k) where
  die-IsCounted : IsCounted base (die k).0
  unfolding die
  die-IsCounted =
      let t = update_cpu_time k in
      let ty : t.yielded_process ≡ none = (update_cpu_time-Stays k).0 ∙ y in
      let w = update_cpu_time-PlacedIn k v in
      let m = update_cpu_time-IsCounted base k n in
      after (elim t.current_process [ none ↦ some t | some p ↦ terminate p t ])
        (Option-split (Counts base) t.current_process (some t) (λ p. terminate p t) (λ _. m)
          (λ p c.
            Ended-Counts base p t (terminate p t) m
              (terminate-Ended p t w ty (current-IsLive p t w c)).0))
    where
      after :
          (r : Option Kernel)
          → Counts base r
          → Counted base (elim r [
            | none ↦ (k, out_of_fuel)
            | some k' ↦ scheduler (record k' { current_process = none })
          ])
      after none h = n
      after (some t) h = scheduler-IsCounted base (record t { current_process = none }) h

  pub pass_up_or_die-IsCounted : (type : ℕ) → IsCounted base (pass_up_or_die type k).0
  unfolding pass_up_or_die pass_up
  pass_up_or_die-IsCounted type =
      Option-split (Counted base) k.current_process (die k) _ (λ _. die-IsCounted)
        (λ p _.
          if-split (Counted base) ((pcb_of k p).p_support_struct == 0) _ _ (λ _. die-IsCounted)
            (λ _. n))

  after_term-IsCounted : (t : Kernel) → IsCounted base t → IsCounted base (after_term t).0
  unfolding after_term
  after_term-IsCounted t m =
      Option-split (Counted base) t.current_process (scheduler t) (λ q. return_to q t)
        (λ _. scheduler-IsCounted base t m) (λ q _. write-IsCounted base q _ t refl m)

  term_target-IsCounted :
      (o : Option ℕ) (t : Kernel)
      → PlacedIn [] t
      → t.yielded_process ≡ none
      → IsCounted base t
      → ((q : ℕ) → o ≡ some q → IsLive t.phase1 q)
      → IsCounted base (term_target o t).0
  unfolding term_target
  term_target-IsCounted none t w ty m live = m
  term_target-IsCounted (some q) t w ty m live =
      after (terminate q t)
        (Ended-Counts base q t (terminate q t) m (terminate-Ended q t w ty (live q refl)).0)
    where
      after :
          (r : Option Kernel)
          → Counts base r
          → Counted base (elim r [
            | none ↦ (t, out_of_fuel)
            | some u ↦ after_term (clear_self q t.current_process u)
          ])
      after none h = m
      after (some u) h =
          clear_self_cases (λ u. IsCounted base (after_term u).0) q t.current_process u
            (after_term-IsCounted u h)
            (λ _. after_term-IsCounted (record u { current_process = none }) h)

  pub term_process-IsCounted : IsCounted base (term_process k).0
  unfolding term_process
  term_process-IsCounted =
      let t = update_cpu_time k in
      let w = update_cpu_time-PlacedIn k v in
      term_target-IsCounted _ t w ((update_cpu_time-Stays k).0 ∙ y)
        (update_cpu_time-IsCounted base k n) (λ q. target-IsLive k.saved_state.reg_a1 q t w)
