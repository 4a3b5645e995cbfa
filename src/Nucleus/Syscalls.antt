-- ===== src/Nucleus/Syscalls.antt =====
-- phase2/exceptions.c: `syscallHandler`. Each case of its switch is a function of the kernel that
-- takes the current process p; where the source would read through a NULL `currentProcess` the
-- dispatch gives `fault`.
pub mod Cases
use pand_aossh.Prelude.{
  ℕ, ◌+◌, ◌/◌, ◌%◌, ◌^◌, Bool, ◌&&◌, ◌||◌, Option, none, some, List, ◌==◌, if◌then◌else◌,
}
use pand_aossh.Prelude.Words.{inc32, sub32, minus, is_neg}
use pand_aossh.Types.{State}
use pand_aossh.Phase1.Pcb.{alloc_pcb, insert_child}
use pand_aossh.Phase1.ProcQ.{insert_proc_q}
use pand_aossh.Phase1.Asl.{remove_blocked}
use pand_aossh.Nucleus.Globals.{
  Kernel, Outcome, ldst, panic, fault, out_of_fuel, pcb_of, modify_pcb, copy_state, store, dec_mem,
  inc_mem, pseudoclk_sem, dev_sem, dev_sem_base, term_tx_sem, term_rx_sem, update_cpu_time,
  active_procs_add, find_process_by_pid,
}
use pand_aossh.Nucleus.Scheduler.{scheduler}
use pand_aossh.Nucleus.Process.{block_current_process, terminate}
use pand_aossh.Nucleus.PassUp.{pass_up_or_die, program_trap_handler, generalexcept}

abbrev pub set_a0 : ℕ → Kernel → Kernel
set_a0 v k = record k { saved_state = record k.saved_state { reg_a0 = v } }

-- `insertProcQ(&readyQueue, p)`.
abbrev pub make_ready : ℕ → Kernel → Kernel
make_ready p k = record k { ready_queue = insert_proc_q k.phase1.table p k.ready_queue }

-- The caller's state is saved, with its result, and loaded again.
abbrev pub return_to : ℕ → Kernel → Kernel × Outcome
return_to p k = (copy_state p k.saved_state k, ldst k.saved_state)

unfoldable pub start_child : (p child : ℕ) → List (Option ℕ) → Kernel → Kernel
start_child p child procs k =
    let k1 = record k {
      active_procs = procs;
      phase1 = insert_child p child k.phase1;
      process_count = inc32 k.process_count;
    } in
    let k2 = set_a0 (pcb_of k1 child).p_pid k1 in
    let k3 = make_ready child (make_ready p (copy_state p k2.saved_state k2)) in
    record k3 { current_process = none }

unfoldable pub create_with : (p : ℕ) → Option ℕ → Kernel → Kernel × Outcome
create_with p none k = return_to p (set_a0 (minus 1) k)
create_with p (some child) k =
    let s = k.saved_state in
    let k1 =
      modify_pcb child
        (λ c. record c {
          p_s = k.user_states s.reg_a1;
          p_support_struct = s.reg_a3;
          p_prio = s.reg_a2;
        })
        k in
    elim (active_procs_add child k1.active_procs) [
      | none ↦ (k1, panic)
      | some procs ↦ scheduler (start_child p child procs k1)
    ]

unfoldable pub create_process : ℕ → Kernel → Kernel × Outcome
create_process p k = let r = alloc_pcb k.phase1 in create_with p r.0 (record k { phase1 = r.1 })

-- After the target is gone: the caller goes on, unless it went too.
unfoldable pub after_term : Kernel → Kernel × Outcome
after_term k = elim k.current_process [ none ↦ scheduler k | some p ↦ return_to p k ]

-- `if (terminatingSelf) currentProcess = NULL`; `before` is `currentProcess` before the termination.
abbrev pub clear_self : (t : ℕ) → (before : Option ℕ) → Kernel → Kernel
clear_self t none k = k
clear_self t (some c) k = if t == c then record k { current_process = none } else k

unfoldable pub term_target : Option ℕ → Kernel → Kernel × Outcome
unfolding after_term
term_target none k = (k, ldst k.saved_state)
term_target (some t) k = elim (terminate t k) [
  | none ↦ (k, out_of_fuel)
  | some k' ↦ after_term (clear_self t k.current_process k')
]

unfoldable pub term_process : Kernel → Kernel × Outcome
term_process k =
    let pid = k.saved_state.reg_a1 in
    let k1 = update_cpu_time k in
    term_target
      (if pid == 0
        then k1.current_process
        else find_process_by_pid k1.phase1.table pid k1.active_procs)
      k1

unfoldable pub passeren : ℕ → Kernel → Kernel × Outcome
passeren p k =
    let sem = k.saved_state.reg_a1 in
    let k1 = dec_mem sem (copy_state p k.saved_state (update_cpu_time k)) in
    if is_neg (k1.mem sem) then block_current_process sem k1 else (k1, ldst (pcb_of k1 p).p_s)

-- A process taken off a semaphore's queue becomes ready.
unfoldable pub wake : Option ℕ → Kernel → Kernel
wake none k = k
wake (some u) k = make_ready u (modify_pcb u (λ c. record c { p_sem_add = 0 }) k)

unfoldable pub release : ℕ → Kernel → Kernel
release sem k = let r = remove_blocked sem k.phase1 in wake r.0 (record k { phase1 = r.1 })

unfoldable pub verhogen : ℕ → Kernel → Kernel × Outcome
verhogen p k =
    let sem = k.saved_state.reg_a1 in
    let k1 = inc_mem sem (copy_state p k.saved_state (update_cpu_time k)) in
    let k2 = if is_neg (k1.mem sem) || (k1.mem sem == 0) then release sem k1 else k1 in
    (k2, ldst (pcb_of k2 p).p_s)

abbrev pub start_devreg : ℕ
start_devreg = 0x10000054

-- The semaphore of the device (or half of a terminal) whose command register is at an address.
unfoldable pub doio_sem : (command_addr : ℕ) → ℕ
doio_sem command_addr =
    let offset = sub32 command_addr start_devreg in
    let line = offset / 0x80 + 3 in
    let dev = offset % 0x80 / 0x10 in
    let subword = offset % 0x10 / 4 in
    if line == 7
    then (if subword == 3 then term_tx_sem dev else term_rx_sem dev)
    else dev_sem_base line dev

unfoldable pub doio : ℕ → Kernel → Kernel × Outcome
doio p k =
    let addr = k.saved_state.reg_a1 in
    let sem = dev_sem k (doio_sem addr) in
    let k1 = copy_state p k.saved_state (update_cpu_time k) in
    block_current_process sem (dec_mem sem (store addr k.saved_state.reg_a2 k1))

unfoldable pub get_time : ℕ → Kernel → Kernel × Outcome
get_time p k =
    let k1 = update_cpu_time k in
    let k2 = set_a0 (pcb_of k1 p).p_time k1 in (k2, ldst k2.saved_state)

unfoldable pub clock_wait : ℕ → Kernel → Kernel × Outcome
clock_wait p k =
    let sem = dev_sem k pseudoclk_sem in
    let k1 = dec_mem sem (copy_state p k.saved_state (update_cpu_time k)) in
    block_current_process sem (record k1 { soft_block_count = inc32 k1.soft_block_count })

unfoldable pub get_support_ptr : ℕ → Kernel → Kernel × Outcome
get_support_ptr p k = let k1 = set_a0 (pcb_of k p).p_support_struct k in (k1, ldst k1.saved_state)

abbrev parent_pid : Kernel → Option ℕ → ℕ
parent_pid k none = 0
parent_pid k (some q) = (pcb_of k q).p_pid

unfoldable pub get_process_id : ℕ → Kernel → Kernel × Outcome
get_process_id p k =
    let pid =
      if k.saved_state.reg_a1 == 0
      then (pcb_of k p).p_pid
      else parent_pid k (pcb_of k p).p_parent in
    let k1 = set_a0 pid k in (k1, ldst k1.saved_state)

unfoldable pub yield : ℕ → Kernel → Kernel × Outcome
yield p k =
    let k1 = copy_state p k.saved_state (update_cpu_time k) in
    scheduler (record k1 { yielded_process = some p; current_process = none })

abbrev pub with_current : (ℕ → Kernel → Kernel × Outcome) → Kernel → Kernel × Outcome
with_current f k = elim k.current_process [ none ↦ (k, fault) | some p ↦ f p k ]

-- The switch on the number of a Nucleus service.
unfoldable pub service : (sys_code : ℕ) → Kernel → Kernel × Outcome
service code k =
    if code == minus 1
    then with_current create_process k
    else if code == minus 2
    then term_process k
    else if code == minus 3
    then with_current passeren k
    else if code == minus 4
    then with_current verhogen k
    else if code == minus 5
    then with_current doio k
    else if code == minus 6
    then with_current get_time k
    else if code == minus 7
    then with_current clock_wait k
    else if code == minus 8
    then with_current get_support_ptr k
    else if code == minus 9
    then with_current get_process_id k
    else if code == minus 10
    then with_current yield k
    else pass_up_or_die generalexcept k

-- The bits MPP of the status are 0: the exception came from user mode.
abbrev pub from_user : State → Bool
from_user s = s.status / 2 ^ 11 % 4 == 0

unfoldable pub syscall_handler : Kernel → Kernel × Outcome
syscall_handler k =
    let code = k.saved_state.reg_a0 in
    if from_user k.saved_state && is_neg code
    then program_trap_handler (record k { saved_state = record k.saved_state { cause = 10 } })
    else if is_neg code || (code == 0)
    then service code k
    else pass_up_or_die generalexcept k
