-- ===== src/Nucleus/Start.antt =====
-- The kernel that `main` starts: the first process runs, and every device semaphore is 0.
use pand_aossh.Prelude.{
  ℕ, zero, suc, ◌+◌, ◌*◌, ◌≤◌, ◌<◌, ◌≡◌, refl, ◌∙◌, sym, subst, ap, none, some, [], arith, range,
}
use pand_aossh.Prelude.Words.{sub32}
use pand_aossh.Types.{Phase1}
use pand_aossh.Phase1.Pcb.{max_proc, alloc_pcb, init_pcbs}
use pand_aossh.Phase1.Pcb.Pool.{init_pcbs_lem, alloc_pcb-Allocates, Allocates}
use pand_aossh.Phase1.Asl.{init_asl}
use pand_aossh.Nucleus.Globals.{
  PassUpVec, Kernel, Outcome, ldst, panic, pcb_of, dev_sem, tot_sems, store,
}
use pand_aossh.Nucleus.Scheduler.{scheduler, run_ready, dispatch}
use pand_aossh.Phase1.ProcQ.{insert_proc_q}
use pand_aossh.Nucleus.Initial.{install_vector, clear_sems, boot, first_process, main, no_procs}

-- All but the memory is the same.
pub record OnlyMemory (k t : Kernel) : Type 0 where
  pub current : t.current_process ≡ k.current_process
  pub vector : t.pass_up_vec ≡ k.pass_up_vec
  pub phase1 : t.phase1 ≡ k.phase1
  pub ready : t.ready_queue ≡ k.ready_queue
  pub yielder : t.yielded_process ≡ k.yielded_process
  pub blocked : t.soft_block_count ≡ k.soft_block_count
  pub devices : t.dev_sems ≡ k.dev_sems

clear_sems-OnlyMemory : (n i : ℕ) (k : Kernel) → OnlyMemory k (clear_sems n i k)
unfolding clear_sems
clear_sems-OnlyMemory zero i k = record {
  current = refl;
  vector = refl;
  phase1 = refl;
  ready = refl;
  yielder = refl;
  blocked = refl;
  devices = refl;
}
clear_sems-OnlyMemory (suc n) i k =
    let h = clear_sems-OnlyMemory n (i + 1) (store (dev_sem k i) 0 k) in
    record {
      current = h.current;
      vector = h.vector;
      phase1 = h.phase1;
      ready = h.ready;
      yielder = h.yielder;
      blocked = h.blocked;
      devices = h.devices;
    }

-- The writes of the loop from i on, and no other.
clear_sems-mem :
    (n i a : ℕ) (k : Kernel)
    → (a < k.dev_sems + 4 * i → (clear_sems n i k).mem a ≡ k.mem a)
      × ((j : ℕ) → i ≤ j → j < i + n → a ≡ k.dev_sems + 4 * j → (clear_sems n i k).mem a ≡ 0)
unfolding clear_sems
clear_sems-mem zero i a k = (λ h. refl, λ j h l e. absurd (omega arith))
clear_sems-mem (suc n) i a k =
    let h = clear_sems-mem n (i + 1) a (store (dev_sem k i) 0 k) in
    (λ b. ground (arith, h.0), λ j b c e. ground (arith, h.0, h.1 j))

-- What `main` leaves: the block 0 runs at the address of the first program, it is the only process,
-- all other blocks are free in their order, the semaphores of the devices and of the clock are 0, and
-- the pass up vector is vec.
pub record Started (base test : ℕ) (vec : PassUpVec) (r : Kernel × Outcome) : Type 0 where
  pub current : r.0.current_process ≡ some 0
  pub loaded : r.1 ≡ ldst (pcb_of r.0 0).p_s
  pub vector : r.0.pass_up_vec ≡ vec
  pub pc : (pcb_of r.0 0).p_s.pc_epc ≡ test
  pub alone : (r.0.process_count ≡ 1) × (r.0.soft_block_count ≡ 0) × (r.0.ready_queue ≡ [])
  pub free : r.0.phase1.pcb_free ≡ range 1 19
  pub sems : (i : ℕ) → i < tot_sems → r.0.mem (base + 4 * i) ≡ 0

pub boot_lem :
    (k : Kernel)
    → ((boot k).phase1 ≡ init_asl (init_pcbs k.phase1))
      × ((boot k).ready_queue ≡ [])
      × ((boot k).yielded_process ≡ k.yielded_process)
      × ((boot k).soft_block_count ≡ 0)
      × ((boot k).dev_sems ≡ k.dev_sems)
      × ((i : ℕ) → i < tot_sems → (boot k).mem (k.dev_sems + 4 * i) ≡ 0)
unfolding boot
boot_lem k =
    let k1 = record k {
      phase1 = init_asl (init_pcbs k.phase1);
      process_count = 0;
      soft_block_count = 0;
      current_process = none;
      ready_queue = [];
    } in
    let h = clear_sems-OnlyMemory tot_sems 0 k1 in
    (
      h.phase1,
      h.ready,
      h.yielder,
      h.blocked,
      h.devices,
      λ i l.
          (clear_sems-mem tot_sems 0 (k.dev_sems + 4 * i) k1).1 i (omega arith) (omega arith) refl,
    )

-- No process runs yet, and no process has an entry of `activeProcs`.
pub boot-idle :
    (k : Kernel)
    → ((boot k).current_process ≡ none)
      × ((boot k).active_procs ≡ no_procs max_proc)
      × ((boot k).pass_up_vec ≡ k.pass_up_vec)
unfolding boot
boot-idle k =
    let k1 = record k {
      phase1 = init_asl (init_pcbs k.phase1);
      process_count = 0;
      soft_block_count = 0;
      current_process = none;
      ready_queue = [];
    } in
    let same = clear_sems-OnlyMemory tot_sems 0 k1 in (same.current, refl, same.vector)

start_lem :
    (ramtop test : ℕ) (k : Kernel)
    → k.yielded_process ≡ none
    → k.ready_queue ≡ []
    → k.soft_block_count ≡ 0
    → k.phase1.pcb_free ≡ range 1 19
    → ((i : ℕ) → i < tot_sems → k.mem (k.dev_sems + 4 * i) ≡ 0)
    → Started k.dev_sems test k.pass_up_vec (scheduler (first_process ramtop test 0 k))
unfolding scheduler run_ready dispatch first_process insert_proc_q
start_lem ramtop test k y q b f z = record {
  current = ground arith;
  loaded = ground arith;
  vector = ground arith;
  pc = ground arith;
  alone = ground arith;
  free = ground arith;
  sems = λ i l. ground (arith, z i);
}

init_asl-free : (s : Phase1) → (init_asl s).pcb_free ≡ s.pcb_free
unfolding init_asl
init_asl-free s = refl

-- `main` on a kernel in which no process has yielded, which is how the kernel is loaded: the first
-- process starts at `test`, it is the only one and nothing else is ready, all other blocks are
-- free, the semaphores of the devices and of the clock are 0, and the pass up vector names the two
-- handlers, with the end of the memory and the address one page below it as their stacks.
pub main_lem :
    (ramtop test : ℕ) (k : Kernel)
    → k.yielded_process ≡ none
    → Started k.dev_sems test
        (record {
          tlb_refill_handler = k.refill_entry;
          tlb_refill_stack_ptr = ramtop;
          exception_handler = k.exception_entry;
          exception_stack_ptr = sub32 ramtop 0x1000;
        })
        (main ramtop test k)
unfolding main install_vector
main_lem ramtop test k y =
    let k0 = install_vector ramtop k in
    let k1 = boot k0 in
    let b = boot_lem k0 in
    let vec = k0.pass_up_vec in
    let full : k1.phase1.pcb_free ≡ range 0 max_proc =
      ap (λ (s : Phase1). s.pcb_free) b.0
      ∙ init_asl-free (init_pcbs k.phase1)
      ∙ (init_pcbs_lem k.phase1).0 in
    let taken =
      subst (λ l. Allocates l k1.phase1 (alloc_pcb k1.phase1)) full
        (alloc_pcb-Allocates k1.phase1) in
    let k2 = record k1 { phase1 = (alloc_pcb k1.phase1).1 } in
    let started : Started k.dev_sems test vec (scheduler (first_process ramtop test 0 k2)) =
      subst (λ base. Started base test vec (scheduler (first_process ramtop test 0 k2))) b.4
        (subst
          (λ (w : PassUpVec).
            Started k2.dev_sems test w (scheduler (first_process ramtop test 0 k2)))
          (boot-idle k0).2
          (start_lem ramtop test k2 (b.2 ∙ y) b.1 b.3 taken.1
            (λ i l. subst (λ d. k1.mem (d + 4 * i) ≡ 0) (sym b.4) (b.5 i l)))) in
    subst
      (λ o.
        Started k.dev_sems test vec
          (elim o [ none ↦ (k1, panic) | some p ↦ scheduler (first_process ramtop test p k2) ]))
      (sym taken.0) started
