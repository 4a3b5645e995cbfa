-- ===== src/Nucleus/Initial.antt =====
-- phase2/initial.c: `main`, with the first call of the scheduler.
use pand_aossh.Prelude.{ℕ, zero, suc, ◌+◌, ◌*◌, Option, none, some, List, [], ◌∷◌}
use pand_aossh.Prelude.Words.{sub32}
use pand_aossh.Phase1.Pcb.{max_proc, init_pcbs, alloc_pcb}
use pand_aossh.Phase1.ProcQ.{mk_empty_proc_q}
use pand_aossh.Phase1.Asl.{init_asl}
use pand_aossh.Nucleus.Globals.{Kernel, Outcome, panic, modify_pcb, store, dev_sem, tot_sems}
use pand_aossh.Nucleus.Scheduler.{scheduler}
use pand_aossh.Nucleus.Syscalls.{make_ready}
use pand_aossh.Nucleus.Interrupts.{psecond}

unfoldable pub no_procs : ℕ → List (Option ℕ)
no_procs zero = []
no_procs (suc n) = none ∷ no_procs n

-- The write `activeProcs[0] = v`.
unfoldable pub set_first : Option ℕ → List (Option ℕ) → List (Option ℕ)
set_first v [] = []
set_first v (_ ∷ rest) = v ∷ rest

-- `devSems[i] = 0` for the n values from i on.
unfoldable pub clear_sems : (n i : ℕ) → Kernel → Kernel
clear_sems zero i k = k
clear_sems (suc n) i k = clear_sems n (i + 1) (store (dev_sem k i) 0 k)

-- Step 1: the handlers and their stacks.
abbrev pub install_vector : (ramtop : ℕ) → Kernel → Kernel
install_vector ramtop k = record k {
  pass_up_vec = record {
    tlb_refill_handler = k.refill_entry;
    tlb_refill_stack_ptr = ramtop;
    exception_handler = k.exception_entry;
    exception_stack_ptr = sub32 ramtop 4096;
  };
}

-- Steps 2 to 4: the kernel before its first process.
unfoldable pub boot : Kernel → Kernel
unfolding clear_sems no_procs
boot k =
    let k1 = record k {
      phase1 = init_asl (init_pcbs k.phase1);
      process_count = 0;
      soft_block_count = 0;
      current_process = none;
      ready_queue = mk_empty_proc_q;
    } in
    let k2 = clear_sems tot_sems 0 k1 in
    record k2 {
      start_tod = k2.tod k2.reads;
      reads = suc k2.reads;
      active_procs = no_procs max_proc;
      interval = psecond;
    }

-- Step 5: the first process.
unfoldable pub first_process : (ramtop test : ℕ) → (p : ℕ) → Kernel → Kernel
unfolding set_first
first_process ramtop test p k =
    let k1 =
      modify_pcb p
        (λ c. record c {
          p_s = record (c.p_s) {
            status = 0x8 + 0x80 + 0x1800;
            mie = 0xffff_ffff;
            reg_sp = sub32 ramtop (2 * 4096);
            pc_epc = test;
          };
          p_prio = 0;
        })
        k in
    record (make_ready p k1) {
      active_procs = set_first (some p) k1.active_procs;
      process_count = 1;
    }

-- `main`: `test` is the address of the first program, and `ramtop` the end of the memory.
unfoldable pub main : (ramtop test : ℕ) → Kernel → Kernel × Outcome
main ramtop test k =
    let k1 = boot (install_vector ramtop k) in
    let r = alloc_pcb k1.phase1 in
    elim (r.0) [
      | none ↦ (k1, panic)
      | some p ↦ scheduler (first_process ramtop test p (record k1 { phase1 = r.1 }))
    ]
