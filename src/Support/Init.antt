-- ===== src/Support/Init.antt =====
-- phase3/initProc.c, and the constants of phase3/headers/support.h that it uses. A support structure
-- is named by its ASID; its page table is in the state of the Pager.
pub mod Boot
use pand_aossh.Prelude.{
  ℕ, ◌+◌, ◌*◌, ◌^◌, List, [], ◌∷◌, ltb, ◌==◌, if◌then◌else◌, replicate, update,
}
use pand_aossh.Types.{State, Context, PteEntry}
use pand_aossh.Support.Vm.{
  Vm, Sem, swap_pool_sem, master_semaphore, shell_semaphore, dev_mutex, Call, passeren,
  create_process, term_process, syscall, init_swap_structs, init_uproc_page_table,
}

abbrev pub uprocmax : ℕ
uprocmax = 8

abbrev pub dev_mutex_total : ℕ
dev_mutex_total = 48

abbrev pub uproc_status : ℕ
uproc_status = 0x80

abbrev pub support_status : ℕ
support_status = 0x8 + 0x80 + 0x1800

abbrev pub uprocstartaddr : ℕ
uprocstartaddr = 0x8000_00B0

abbrev pub userstacktop : ℕ
userstacktop = 0xC000_0000

-- Where the linker put the two handlers, and the tops of the two stacks of each support structure.
pub record Layout : Type 0 where
  pub pager : ℕ
  pub general_exception_handler : ℕ
  pub stack_tlb : ℕ → ℕ
  pub stack_gen : ℕ → ℕ

-- The Support Level while a U-proc runs: the Pager's state, the first values of the semaphores, the
-- support structures, and the bytes of the U-proc's logical addresses.
pub record Sys : Type 0 where
  pub vm : Vm
  pub sems : Sem → ℕ
  pub asids : ℕ → ℕ
  pub contexts : ℕ → ℕ → Context
  pub layout : Layout
  pub memory : ℕ → ℕ

abbrev pub call : Call → Sys → Sys
call c s = record s { vm = syscall c s.vm }

-- The state in which a U-proc starts: all words that are not named are 0.
unfoldable pub uproc_state : (asid : ℕ) → State
uproc_state asid = record {
  entry_hi = asid * 2 ^ 6;
  cause = 0;
  status = uproc_status;
  pc_epc = uprocstartaddr;
  mie = 0xffff_ffff;
  reg_sp = userstacktop;
  reg_a0 = 0;
  reg_a1 = 0;
  reg_a2 = 0;
  reg_a3 = 0;
  others = replicate 27 0;
}

-- The contexts 0 and 1 are those of page faults and of all other exceptions.
unfoldable pub handler_contexts : (asid : ℕ) → Layout → (ℕ → Context) → ℕ → Context
handler_contexts asid l old kind =
    if kind == 0
    then record { stack_ptr = l.stack_tlb asid; ctx_status = support_status; pc = l.pager }
    else if kind == 1
    then record {
      stack_ptr = l.stack_gen asid;
      ctx_status = support_status;
      pc = l.general_exception_handler;
    }
    else old kind

unfoldable pub launch_uproc : (asid : ℕ) → Sys → Sys
launch_uproc asid s =
    let s1 = record s {
      asids = update s.asids asid asid;
      vm = init_uproc_page_table asid s.vm;
      contexts = update s.contexts asid (handler_contexts asid s.layout (s.contexts asid));
    } in
    call (create_process (uproc_state asid) 0 asid) s1

-- The first values of the semaphores.
unfoldable pub init_sems : (Sem → ℕ) → Sem → ℕ
init_sems old swap_pool_sem = 1
init_sems old master_semaphore = 0
init_sems old shell_semaphore = 0
init_sems old (dev_mutex i) = if ltb i dev_mutex_total then 1 else old (dev_mutex i)

-- The InstantiatorProcess.
unfoldable pub test : Sys → Sys
test s =
    let s1 = record s { vm = init_swap_structs s.vm; sems = init_sems s.sems } in
    call term_process (call (passeren master_semaphore) (launch_uproc 1 s1))
