-- ===== src/Nucleus/Running/Reach.antt =====
-- The states that the Nucleus can be left in, from `main` on: the processor runs, an exception or an
-- interrupt comes, and the exception handler is entered.
use pand_aossh.Prelude.{ℕ, ◌≡◌, refl, ◌∙◌, subst, true, none, some, Option-split, inl, inr, ◌⊎◌}
use pand_aossh.Phase1.Pcb.{max_proc, alloc_pcb}
use pand_aossh.Nucleus.Globals.{Kernel, Outcome, ldst, ldcxt, halt, wait, panic, fault, out_of_fuel}
use pand_aossh.Nucleus.Scheduler.{scheduler}
use pand_aossh.Nucleus.Initial.{install_vector, boot, first_process, main}
use pand_aossh.Nucleus.Start.{main_lem, boot_lem}
use pand_aossh.Nucleus.Exceptions.{exception_handler}
use pand_aossh.Nucleus.Conservation.{slots, Kept}
use pand_aossh.Nucleus.Conservation.Traps.{exception_handler-Kept}
use pand_aossh.Nucleus.Running.{Names, Settled, scheduler-Settled}
use pand_aossh.Nucleus.Running.Handlers.{is_interrupt, exception_handler-Settled}

-- What may come next: after a load anything, while the processor waits an interrupt, and nothing
-- after a halt, a panic or a fault.
abbrev pub Continues : Outcome → Kernel → Type 0
Continues (ldst _) k = Unit {0}
Continues (ldcxt _ _ _) k = Unit {0}
Continues wait k = is_interrupt k ≡ true
Continues halt k = ⊥
Continues panic k = ⊥
Continues fault k = ⊥
Continues out_of_fuel k = ⊥

-- The processor runs from k to t: the registers, the clock, the memory of processes and devices and
-- the support structures may change, the variables of the Nucleus do not.
pub record Runs (k : Kernel) (o : Outcome) (t : Kernel) : Type 0 where
  pub next : Continues o t
  pub phase1 : t.phase1 ≡ k.phase1
  pub count : t.process_count ≡ k.process_count
  pub blocked : t.soft_block_count ≡ k.soft_block_count
  pub ready : t.ready_queue ≡ k.ready_queue
  pub current : t.current_process ≡ k.current_process
  pub yielder : t.yielded_process ≡ k.yielded_process
  pub active : t.active_procs ≡ k.active_procs
  pub devices : t.dev_sems ≡ k.dev_sems

-- `main` on a kernel as it is loaded, and then one exception after the other.
pub data Reach : Kernel × Outcome → Type 0 where
  booted : (ramtop test : ℕ) (k : Kernel) → k.yielded_process ≡ none → Reach (main ramtop test k)
  handled :
      {k : Kernel} {o : Outcome} (t : Kernel)
      → Reach (k, o)
      → Runs k o t
      → Reach (exception_handler t)

-- Every block is free or counted, as long as the kernel has not panicked.
abbrev pub AllBlocks : Kernel × Outcome → Type 0
AllBlocks (k, o) = (o ≡ panic) ⊎ (slots k ≡ max_proc)

main-Settled :
    (ramtop test : ℕ) (k : Kernel) → k.yielded_process ≡ none → Settled (main ramtop test k)
unfolding main
main-Settled ramtop test k y =
    let k1 = boot (install_vector ramtop k) in
    let s = (alloc_pcb k1.phase1).1 in
    Option-split Settled (alloc_pcb k1.phase1).0 (k1, panic)
      (λ p. scheduler (first_process ramtop test p (record k1 { phase1 = s })))
      (λ _. ((boot_lem (install_vector ramtop k)).2 ∙ y, tt)) (λ p _. scheduler-Settled _)

main-AllBlocks :
    (ramtop test : ℕ) (k : Kernel) → k.yielded_process ≡ none → AllBlocks (main ramtop test k)
main-AllBlocks ramtop test k y =
    let h = main_lem ramtop test k y in inr (rw (h.alone.0, h.free) refl)

-- What comes next finds a process, or is an interrupt.
pub comes :
    (k t : Kernel) (o : Outcome)
    → Names k o
    → Runs k o t
    → (is_interrupt t ≡ true) ⊎ ((p : ℕ) × (t.current_process ≡ some p))
comes k t (ldst _) h r = inr (h.0, r.current ∙ h.1)
comes k t (ldcxt _ _ _) h r = inr (h.0, r.current ∙ h.1)
comes k t wait h r = inl r.next
comes k t halt h r = absurd r.next
comes k t panic h r = absurd r.next
comes k t fault h r = absurd r.next
comes k t out_of_fuel h r = absurd r.next

-- What came before, and is not panic since it went on.
kept :
    (k t : Kernel) (o : Outcome)
    → AllBlocks (k, o)
    → Runs k o t
    → Kept t (exception_handler t)
    → AllBlocks (exception_handler t)
kept k t o (inl stopped) r h = absurd (subst (λ o. Continues o t) stopped r.next)
kept k t o (inr e) r (inl stopped) = inl stopped
kept k t o (inr e) r (inr same) =
    let before : slots t ≡ slots k = rw (r.phase1, r.count) in inr (same ∙ before ∙ e)

-- In every state that can be reached from `main` by any sequence of exceptions, interrupts and runs
-- of processes between them: nobody is left in `yieldedProcess`; a process that is loaded, or whose
-- exception is passed up, is the current process, and what is loaded is the state of its block or the
-- one that was saved at the entry, or a context of its support structure; while the processor waits
-- there is none; no service has met a NULL process; and, as long as the kernel has not panicked, the
-- blocks that are free and those that `processCount` counts are 20, as a word.
pub Reach-Settled : {r : Kernel × Outcome} → Reach r → Settled r × AllBlocks r
Reach-Settled (booted ramtop test k y) =
    (main-Settled ramtop test k y, main-AllBlocks ramtop test k y)
Reach-Settled (handled {k} {o} t before run) =
    let ((y, n), all) = Reach-Settled before in
    (
      exception_handler-Settled t (run.yielder ∙ y) (comes k t o n run),
      kept k t o all run (exception_handler-Kept t),
    )
