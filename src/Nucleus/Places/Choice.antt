-- ===== src/Nucleus/Places/Choice.antt =====
-- The scheduler, the clock of a process and the ways onto a queue keep each block in one place.
use pand_aossh.Prelude.{
  ℕ, ◌≡◌, ◌≢◌, refl, true, false, none, some, List, [], ◌∷◌, arith, ◌==◌, if-split, Option-split,
  ==→eq,
}
use pand_aossh.Prelude.Words.{slt}
use pand_aossh.Phase1.ProcQ.{insert_proc_q}
use pand_aossh.Nucleus.Globals.{
  Kernel, Outcome, ldst, ldcxt, halt, wait, panic, fault, out_of_fuel, update_cpu_time, charge,
  modify_pcb, pcb_of,
}
use pand_aossh.Nucleus.Scheduler.{scheduler, run_ready, resume_yielder, dispatch, idle}
use pand_aossh.Nucleus.Process.{block, block_current_process}
use pand_aossh.Nucleus.Places.{Placed, PlacedIn, move-Placed, write-Placed}
use pand_aossh.Nucleus.Places.Moves.{occurs-insert_proc_q}
use pand_aossh.Nucleus.Places.Blocked.{hand-Placed, insert-Placed}

-- Nothing runs and nothing is ready.
abbrev pub IsIdle : Kernel → Type 0
IsIdle k = (k.current_process ≡ none) × (k.ready_queue ≡ [])

-- Why the Nucleus stops or waits: no process is left; all wait, some for a device or the clock; or
-- all wait, and none for these.
abbrev pub Stops : Kernel → Outcome → Type 0
Stops k (ldst _) = Unit {0}
Stops k (ldcxt _ _ _) = Unit {0}
Stops k halt = IsIdle k × (k.process_count ≡ 0)
Stops k wait = IsIdle k × (k.process_count ≢ 0) × (slt 0 k.soft_block_count ≡ true)
Stops k panic = IsIdle k × (k.process_count ≢ 0) × (slt 0 k.soft_block_count ≡ false)
Stops k fault = ⊥
Stops k out_of_fuel = ⊥

-- Each block is in one place, nobody has yielded, and the Nucleus stops for a reason.
abbrev pub IsSound : Kernel × Outcome → Type 0
IsSound (k, o) = PlacedIn [] k × (k.yielded_process ≡ none) × Stops k o

idle-IsSound : (k : Kernel) → PlacedIn [] k → k.yielded_process ≡ none → IsIdle k → IsSound (idle k)
unfolding idle
idle-IsSound k v y i =
    if-split IsSound (k.process_count == 0) (k, halt) _
      (λ e. (v, y, (i, ==→eq k.process_count 0 e)))
      (λ e.
        let some_left : k.process_count ≢ 0 = ground (arith, e) in
        if-split IsSound (slt 0 k.soft_block_count) _ (k, panic) (λ h. (v, y, (i, some_left, h)))
          (λ h. (v, y, (i, some_left, h))))

run_ready-IsSound :
    (l : List ℕ) (k : Kernel)
    → Placed [] none none l k.active_procs k.phase1
    → k.yielded_process ≡ none
    → k.ready_queue ≡ l
    → IsSound (run_ready l k)
unfolding run_ready dispatch
run_ready-IsSound [] k v y e =
    idle-IsSound (record k { current_process = none }) (rw (y, e) v) y (refl, e)
run_ready-IsSound (p ∷ rest) k v y e = (rw y (move-Placed v (λ a. omega arith)), y, tt)

-- With no current process, the scheduler takes a ready process or the yielder, and leaves each block
-- in one place.
pub scheduler-IsSound :
    (k : Kernel) → PlacedIn [] k → k.current_process ≡ none → IsSound (scheduler k)
unfolding scheduler resume_yielder dispatch
scheduler-IsSound k v c =
    Option-split IsSound k.yielded_process _
      (λ p. resume_yielder p k.ready_queue (record k { yielded_process = none }))
      (λ y.
        let w : Placed [] none none k.ready_queue k.active_procs k.phase1 = rw (c, y) at v in
        run_ready-IsSound k.ready_queue k w y refl)
      (λ p y.
        let w : Placed [] none (some p) k.ready_queue k.active_procs k.phase1 = rw (c, y) at v in
        yielder p k.ready_queue refl w)
  where
    yielder :
        (p : ℕ) (l : List ℕ)
        → k.ready_queue ≡ l
        → Placed [] none (some p) l k.active_procs k.phase1
        → IsSound (resume_yielder p l (record k { yielded_process = none }))
    yielder p [] e w = (rw e (move-Placed w (λ a. omega arith)), refl, tt)
    yielder p (q ∷ rest) e w =
        let queue = insert_proc_q k.phase1.table p (q ∷ rest) in
        if-split IsSound (slt (pcb_of k q).p_prio (pcb_of k p).p_prio) _ _
          (λ _. (rw e (move-Placed w (λ a. omega arith)), refl, tt))
          (λ _.
            run_ready-IsSound queue (record k { yielded_process = none; ready_queue = queue })
              (move-Placed w (λ a.
                let i = occurs-insert_proc_q a k.phase1.table p (q ∷ rest) in omega (arith, i)))
              refl refl)

-- Charging the current process moves no block.
pub update_cpu_time-PlacedIn :
    {hand : List ℕ} (k : Kernel) → PlacedIn hand k → PlacedIn hand (update_cpu_time k)
unfolding update_cpu_time charge
update_cpu_time-PlacedIn {hand} k v =
    Option-split (λ (t : Kernel). PlacedIn hand t) k.current_process k (λ p. charge p k) (λ _. v)
      (λ p _. write-Placed k.phase1 p _ v refl refl refl)

block-idle : (sem p : ℕ) (k : Kernel) → (block sem p k).current_process ≡ none
unfolding block
block-idle sem p k = refl

-- The current process blocks on a semaphore that is not NULL.
block-Placed :
    (sem p : ℕ) (k : Kernel)
    → (sem == 0) ≡ false
    → PlacedIn [] k
    → k.yielded_process ≡ none
    → k.current_process ≡ some p
    → PlacedIn [] (block sem p k)
unfolding block charge
block-Placed sem p k z v y c =
    let s = k.phase1 in
    let start : Placed [] (some p) none k.ready_queue k.active_procs s = rw (c, y) at v in
    let taken : Placed (p ∷ []) none none k.ready_queue k.active_procs s =
      move-Placed start (λ a. omega arith) in
    let s1 = (charge p k).phase1 in
    let charged : Placed (p ∷ []) none none k.ready_queue k.active_procs s1 =
      write-Placed s p _ taken refl refl refl in
    let s2 = (modify_pcb p (λ c. record c { p_sem_add = sem }) (charge p k)).phase1 in
    let naming : Placed (p ∷ []) none none k.ready_queue k.active_procs s2 =
      hand-Placed s1 p _ charged refl refl in
    rw y (insert-Placed s2 sem p z naming)

-- The current process waits on a semaphore that is not NULL, and another is chosen.
pub block_current_process-IsSound :
    (sem p : ℕ) (k : Kernel)
    → (sem == 0) ≡ false
    → PlacedIn [] k
    → k.yielded_process ≡ none
    → k.current_process ≡ some p
    → IsSound (block_current_process sem k)
unfolding block_current_process
block_current_process-IsSound sem p k z v y c =
    Option-split IsSound k.current_process (k, panic) (λ p. scheduler (block sem p k))
      (λ n. absurd cc)
      (λ p c. scheduler-IsSound (block sem p k) (block-Placed sem p k z v y c) (block-idle sem p k))
