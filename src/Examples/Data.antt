-- ===== src/Examples/Data.antt =====
-- The data of the examples: a table of blocks, lists and a kernel.
use pand_aossh.Prelude.{ℕ, ◌+◌, ◌-◌, ◌^◌, none, some, List, [], ◌∷◌, ◌==◌, if◌then◌else◌}
use pand_aossh.Types.{State, Pcb, Semd, Phase1}
use pand_aossh.Listx.{Links, init_list_head, list_add_tail}
use pand_aossh.Nucleus.Globals.{Kernel}
use pand_aossh.Support.Vm.{Vm}

abbrev pub blank_state : State
blank_state = record {
  entry_hi = 0;
  cause = 0;
  status = 0x1800;
  pc_epc = 0;
  mie = 0;
  reg_sp = 0;
  reg_a0 = 0;
  reg_a1 = 0x1000;
  reg_a2 = 0;
  reg_a3 = 0;
  others = [];
}

-- The block p has the priority p; the block 5 is the parent of 6 and 7.
abbrev pub blocks : ℕ → Pcb
blocks p = record {
  p_parent = if p == 6 then some 5 else if p == 7 then some 5 else none;
  p_child = if p == 5 then 6 ∷ 7 ∷ [] else [];
  p_s = blank_state;
  p_time = 0;
  p_sem_add = if p == 3 then 0x1000 else if p == 4 then 0x1000 else 0;
  p_support_struct = 0;
  p_prio = p;
  p_pid = p + 1;
}

-- Two processes wait on the semaphore at 0x1000.
abbrev pub waiting : List Semd
waiting = record { index = 0; s_key = 0x1000; s_procq = 3 ∷ 4 ∷ [] } ∷ []

abbrev pub free_semds : List ℕ
free_semds =
    1 ∷ 2 ∷ 3 ∷ 4 ∷ 5 ∷ 6 ∷ 7 ∷ 8 ∷ 9 ∷ 10 ∷ 11 ∷ 12 ∷ 13 ∷ 14 ∷ 15 ∷ 16 ∷ 17 ∷ 18 ∷ 19 ∷ []

abbrev pub pools : Phase1
pools = record {
  table = blocks;
  pcb_free = 8 ∷ 9 ∷ [];
  next_pid = 9;
  semd_free = free_semds;
  semd_h = waiting;
}

-- The processes 2 and 1 are ready, and 0 runs.
abbrev pub demo : Kernel
demo = record {
  phase1 = pools;
  process_count = 8;
  soft_block_count = 0;
  ready_queue = 2 ∷ 1 ∷ [];
  current_process = some 0;
  yielded_process = none;
  active_procs = some 0 ∷ some 1 ∷ [];
  start_tod = 0;
  dev_sems = 0x2000;
  mem = λ a. if a == 0x1000 then 2 ^ 32 - 2 else 0;
  user_states = λ a. blank_state;
  supports = λ a. record {
    sup_asid = 1;
    sup_except_state = λ i. blank_state;
    sup_except_context = λ i. record { stack_ptr = 0; ctx_status = 0; pc = 0 };
    sup_private_pg_tbl = λ i. record { pte_entry_hi = 0; pte_entry_lo = 0 };
  };
  around_table = λ a i. record { pte_entry_hi = 0; pte_entry_lo = 0 };
  saved_state = blank_state;
  tod = λ n. n;
  reads = 0;
  timer = 0;
  interval = 0;
  cpu_status = 0;
  cpu_mie = 0;
  tlb = [];
  ack = 1;
  pass_up_vec = record {
    tlb_refill_handler = 0;
    tlb_refill_stack_ptr = 0;
    exception_handler = 0;
    exception_stack_ptr = 0;
  };
  refill_entry = 0x2000_1000;
  exception_entry = 0x2000_2000;
}

-- A ring with the sentinel 100 and the nodes 2 and 1.
abbrev pub links : Links
links =
    list_add_tail 1 100
      (list_add_tail 2 100 (init_list_head 100 (λ a. record { next = 0; prev = 0 })))

-- A fresh machine with free frames whose flash devices answer READY, which is 1.
abbrev pub fresh_vm : Vm
fresh_vm = record {
  swap_pool = λ i. record { sw_asid = 2 ^ 32 - 1; sw_page_no = 0; sw_pte = (0, 0) };
  fifo_next = 0;
  page_tables = λ a i. record { pte_entry_hi = 0; pte_entry_lo = 0 };
  tlb = [];
  trace = [];
  answer = λ n. 1;
  answered = 0;
  ready = 1;
}
