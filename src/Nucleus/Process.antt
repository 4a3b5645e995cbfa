-- ===== src/Nucleus/Process.antt =====
-- phase2/exceptions.c: blocking the current process and terminating a process with its progeny.
use pand_aossh.Prelude.{
  ℕ, zero, suc, ◌+◌, ◌*◌, true, false, ◌||◌, Option, none, some, ◌==◌, if◌then◌else◌, length,
}
use pand_aossh.Prelude.Words.{inc32, dec32, minus}
use pand_aossh.Types.{Pcb}
use pand_aossh.Phase1.Pcb.{max_proc, free_pcb, remove_child, out_child}
use pand_aossh.Phase1.ProcQ.{out_proc_q}
use pand_aossh.Phase1.Asl.{insert_blocked, out_blocked}
use pand_aossh.Nucleus.Globals.{
  Kernel, Outcome, panic, pcb_of, modify_pcb, inc_mem, dev_sem, pseudoclk_sem, charge,
  is_device_semaphore, active_procs_remove,
}
use pand_aossh.Nucleus.Scheduler.{scheduler}

-- What `blockCurrentProcess` does before it calls the scheduler.
unfoldable pub block : (sem p : ℕ) → Kernel → Kernel
unfolding charge
block sem p k =
    let k1 = modify_pcb p (λ c. record c { p_sem_add = sem }) (charge p k) in
    record k1 {
      soft_block_count =
          if is_device_semaphore k.dev_sems sem
          then inc32 k.soft_block_count
          else k.soft_block_count;
      phase1 = (insert_blocked sem (some p) k1.phase1).1;
      current_process = none;
    }

unfoldable pub block_current_process : ℕ → Kernel → Kernel × Outcome
block_current_process sem k = elim k.current_process [
  | none ↦ (k, panic)
  | some p ↦ scheduler (block sem p k)
]

-- The semaphore of a process that dies blocked: soft-blocked processes are counted off, any other
-- gives back its P. `removed` is what `outBlocked` returned.
give_back : (sem : ℕ) → (removed : Option ℕ) → Kernel → Kernel
give_back sem none k = k
give_back sem (some _) k =
    if is_device_semaphore k.dev_sems sem || (sem == dev_sem k pseudoclk_sem)
    then record k { soft_block_count = dec32 k.soft_block_count }
    else inc_mem sem k

unfoldable pub unblock : ℕ → Kernel → Kernel
unfolding give_back
unblock p k =
    let sem = (pcb_of k p).p_sem_add in
    if sem == 0
    then k
    else (let r = out_blocked (some p) k.phase1 in
        give_back sem r.0
          (modify_pcb p (λ c. record c { p_sem_add = 0 }) (record k { phase1 = r.1 })))

-- `if (p == currentProcess) currentProcess = NULL`.
abbrev pub forget : ℕ → Option ℕ → Option ℕ
forget p none = none
forget p (some q) = if p == q then none else some q

-- `terminateProcess` after the loop over the children.
unfoldable pub finish : ℕ → Kernel → Kernel
finish p k =
    let k1 = record k { phase1 = (out_child (some p) k.phase1).1 } in
    let k2 = unblock p (record k1 { active_procs = active_procs_remove p k1.active_procs }) in
    record k2 {
      ready_queue = (out_proc_q p k2.ready_queue).1;
      current_process = forget p k2.current_process;
      phase1 = free_pcb (some p) k2.phase1;
      process_count = dec32 k2.process_count;
    }

abbrev pub and_then : Option Kernel → (Kernel → Option Kernel) → Option Kernel
and_then none f = none
and_then (some k) f = f k

-- `terminateProcess` and its loop over the children, on fuel; `none` says that it ran out.
unfoldable mutual
  pub terminate_process : ℕ → ℕ → Kernel → Option Kernel
  terminate_process zero p k = none
  terminate_process (suc fuel) p k = elim ((pcb_of k p).p_pid == minus 1) [
    | true ↦ some k
    | false ↦
        and_then (terminate_children fuel p (modify_pcb p (λ c. record c { p_pid = minus 1 }) k))
          (λ k'. some (finish p k'))
  ]

  pub terminate_children : ℕ → ℕ → Kernel → Option Kernel
  terminate_children zero p k = none
  terminate_children (suc fuel) p k =
      let r = remove_child (some p) k.phase1 in
      elim (r.0) [
        | none ↦ some k
        | some child ↦
            and_then (terminate_process fuel child (record k { phase1 = r.1 }))
              (λ k'. terminate_children fuel p k')
      ]

-- The entries of the children lists of the blocks below n: each turn of the loop takes one off.
unfoldable pub child_count : (ℕ → Pcb) → ℕ → ℕ
child_count table zero = 0
child_count table (suc n) = length (table n).p_child + child_count table n

-- `terminateProcess` with fuel enough for every child that is linked anywhere.
unfoldable pub terminate : ℕ → Kernel → Option Kernel
terminate p k = terminate_process (2 * child_count k.phase1.table max_proc + 2) p k
