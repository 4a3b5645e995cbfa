-- ===== src/Nucleus/Running.antt =====
-- The Nucleus between two exceptions: which process runs, and that no service meets a NULL process.
pub mod Services
pub mod Interrupts
pub mod Handlers
pub mod Reach
use Prim.Native.Nat.{bit_or}
use pand_aossh.Prelude.{
  ℕ, zero, suc, ◌-◌, ◌%◌, ◌/◌, ◌^◌, ◌≡◌, ◌≢◌, refl, sym, ap, ◌∙◌, subst, Bool, true, false, ◌&&◌,
  ◌||◌, Option, none, some, arith, ◌==◌, leb, if◌then◌else◌, Option-split, if-split, Option-cases,
  Bool-cases, inl, inr, ◌⊎◌, List, [], ◌∷◌, Option-split,
}
use pand_aossh.Prelude.Words.{slt, minus, is_neg}
use pand_aossh.Phase1.Pcb.{remove_child, out_child, alloc_pcb}
use pand_aossh.Nucleus.Globals.{
  Kernel, Outcome, ldst, ldcxt, halt, wait, panic, fault, out_of_fuel, update_cpu_time, charge,
  pcb_of, modify_pcb, active_procs_remove, active_procs_add, copy_state, dec_mem, inc_mem, store,
  dev_sem, pseudoclk_sem, find_process_by_pid,
}
use pand_aossh.Nucleus.Scheduler.{resume_yielder, scheduler, run_ready, dispatch, idle}
use pand_aossh.Nucleus.Process.{
  block, block_current_process, unblock, finish, terminate_process, terminate_children, terminate,
  and_then,
}

-- What `currentProcess` is when control leaves the Nucleus in that way: a state that is loaded is that
-- of the current process, or the state that was saved when the Nucleus was entered; an exception is
-- passed up to a context of the current process's support structure.
abbrev pub Names : Kernel → Outcome → Type 0
Names k (ldst s) =
    (p : ℕ) × (k.current_process ≡ some p) × ((s ≡ (pcb_of k p).p_s) ⊎ (s ≡ k.saved_state))
Names k (ldcxt sp st pc) =
    (p : ℕ) × (k.current_process ≡ some p)
    × ((type : ℕ) × ((k.supports (pcb_of k p).p_support_struct).sup_except_context type
          ≡ record { stack_ptr = sp; ctx_status = st; pc = pc }))
Names k wait = k.current_process ≡ none
Names k fault = ⊥
Names k halt = Unit {0}
Names k panic = Unit {0}
Names k out_of_fuel = Unit {0}

-- Nobody has yielded, and `currentProcess` names the process that runs.
abbrev pub Settled : Kernel × Outcome → Type 0
Settled (k, o) = (k.yielded_process ≡ none) × Names k o

dispatch-Settled : (p : ℕ) (k : Kernel) → k.yielded_process ≡ none → Settled (dispatch p k)
unfolding dispatch
dispatch-Settled p k y = (y, (p, refl, inl refl))

idle-Settled : (k : Kernel) → k.yielded_process ≡ none → k.current_process ≡ none → Settled (idle k)
unfolding idle
idle-Settled k y c =
    if-split Settled (k.process_count == 0) (k, halt) _ (λ _. (y, tt))
      (λ _. if-split Settled (slt 0 k.soft_block_count) _ (k, panic) (λ _. (y, c)) (λ _. (y, tt)))

run_ready-Settled : (l : List ℕ) (k : Kernel) → k.yielded_process ≡ none → Settled (run_ready l k)
unfolding run_ready
run_ready-Settled [] k y = idle-Settled (record k { current_process = none }) y refl
run_ready-Settled (p ∷ rest) k y = dispatch-Settled p (record k { ready_queue = rest }) y

resume_yielder-Settled :
    (y : ℕ) (l : List ℕ) (k : Kernel) → k.yielded_process ≡ none → Settled (resume_yielder y l k)
unfolding resume_yielder
resume_yielder-Settled y [] k e = dispatch-Settled y k e
resume_yielder-Settled y (p ∷ rest) k e =
    if-split Settled (slt (pcb_of k p).p_prio (pcb_of k y).p_prio) (dispatch y k) _
      (λ _. dispatch-Settled y k e) (λ _. run_ready-Settled _ _ e)

pub scheduler-Settled : (k : Kernel) → Settled (scheduler k)
unfolding scheduler
scheduler-Settled k =
    Option-split Settled k.yielded_process (run_ready k.ready_queue k) _
      (λ y. run_ready-Settled k.ready_queue k y)
      (λ y _. resume_yielder-Settled y k.ready_queue (record k { yielded_process = none }) refl)

-- Neither of the two variables changed.
abbrev pub Stays : Kernel → Kernel → Type 0
Stays k t = (t.yielded_process ≡ k.yielded_process) × (t.current_process ≡ k.current_process)

pub update_cpu_time-Stays : (k : Kernel) → Stays k (update_cpu_time k)
unfolding update_cpu_time charge
update_cpu_time-Stays k = ground arith

unblock-yielder : (p : ℕ) (k : Kernel) → (unblock p k).yielded_process ≡ k.yielded_process
unfolding unblock
unblock-yielder p k = ground arith

pub finish-yielder : (p : ℕ) (k : Kernel) → (finish p k).yielded_process ≡ k.yielded_process
unfolding finish
finish-yielder p k = unblock-yielder p _

-- A result of the recursion, if there is one, has the same yielder.
abbrev pub KeepsYielder : Kernel → Option Kernel → Type 0
KeepsYielder k none = Unit {0}
KeepsYielder k (some t) = t.yielded_process ≡ k.yielded_process

pub KeepsYielder-trans :
    (k t : Kernel) (r : Option Kernel)
    → t.yielded_process ≡ k.yielded_process
    → KeepsYielder t r
    → KeepsYielder k r
KeepsYielder-trans k t none e h = tt
KeepsYielder-trans k t (some u) e h = h ∙ e

and_then-KeepsYielder :
    (k : Kernel) (r : Option Kernel) (f : Kernel → Option Kernel)
    → KeepsYielder k r
    → ((t : Kernel) → KeepsYielder t (f t))
    → KeepsYielder k (and_then r f)
and_then-KeepsYielder k none f h next = tt
and_then-KeepsYielder k (some t) f h next = KeepsYielder-trans k t (f t) h (next t)

mutual
  unfolding terminate_process terminate_children

  terminate_process-KeepsYielder :
      (fuel p : ℕ) (k : Kernel) → KeepsYielder k (terminate_process fuel p k)
  terminate_process-KeepsYielder zero p k = tt
  terminate_process-KeepsYielder (suc fuel) p k =
      elim (Bool-cases ((k.phase1.table p).p_pid == minus 1)) [
        | inl dead ↦ rw (dead, KeepsYielder) refl
        | inr alive ↦
            rw (alive, KeepsYielder)
              (and_then-KeepsYielder k _ (λ k'. some (finish p k'))
                (terminate_children-KeepsYielder fuel p
                  (modify_pcb p (λ c. record c { p_pid = minus 1 }) k))
                (λ t. finish-yielder p t))
      ]

  terminate_children-KeepsYielder :
      (fuel p : ℕ) (k : Kernel) → KeepsYielder k (terminate_children fuel p k)
  terminate_children-KeepsYielder zero p k = tt
  terminate_children-KeepsYielder (suc fuel) p k =
      elim (Option-cases (remove_child (some p) k.phase1).0) [
        | inl e ↦ rw (e, KeepsYielder) refl
        | inr (child, e) ↦
            let k1 = record k { phase1 = (remove_child (some p) k.phase1).1 } in
            rw (e, KeepsYielder)
              (and_then-KeepsYielder k _ (λ k'. terminate_children fuel p k')
                (terminate_process-KeepsYielder fuel child k1)
                (λ t. terminate_children-KeepsYielder fuel p t))
      ]

pub terminate-KeepsYielder : (p : ℕ) (k : Kernel) → KeepsYielder k (terminate p k)
unfolding terminate
terminate-KeepsYielder p k = terminate_process-KeepsYielder _ p k
