-- ===== src/Nucleus/Globals.antt =====
-- phase2/headers/globals.h, the variables of phase2/initial.c, the machine that the handlers see,
-- and the small helpers of exceptions.c.
use pand_aossh.Prelude.{
  ℕ, suc, ◌+◌, ◌-◌, ◌*◌, ◌/◌, Bool, true, false, Option, none, some, List, [], ◌∷◌, ltb, leb, ◌==◌,
  if◌then◌else◌, update,
}
use pand_aossh.Prelude.Words.{add32, sub32, inc32, dec32}
use pand_aossh.Types.{State, Pcb, Support, PteEntry, ℤ, Phase1}
use pand_aossh.Phase1.Pcb.{set_pcb}

-- The words of the pass up vector that `main` writes.
pub record PassUpVec : Type 0 where
  pub tlb_refill_handler : ℕ
  pub tlb_refill_stack_ptr : ℕ
  pub exception_handler : ℕ
  pub exception_stack_ptr : ℕ

-- `mem` holds the words that semaphore and device addresses name; `tod n` is the n-th reading of
-- the time-of-day clock; `dev_sems` is the address of `devSems[0]`, and `refill_entry` and
-- `exception_entry` are those of uTLB_RefillHandler and exceptionHandler, fixed when the kernel is
-- linked; `ack` is the emulator's constant ACK; `around_table` gives what stands in the memory before
-- and behind the page table of a support structure, by its address and the index.
pub record Kernel : Type 0 where
  pub phase1 : Phase1
  pub process_count : ℕ
  pub soft_block_count : ℕ
  pub ready_queue : List ℕ
  pub current_process : Option ℕ
  pub yielded_process : Option ℕ
  pub active_procs : List (Option ℕ)
  pub start_tod : ℕ
  pub dev_sems : ℕ
  pub mem : ℕ → ℕ
  pub user_states : ℕ → State
  pub supports : ℕ → Support
  pub around_table : ℕ → ℤ → PteEntry
  pub saved_state : State
  pub tod : ℕ → ℕ
  pub reads : ℕ
  pub timer : ℕ
  pub interval : ℕ
  pub cpu_status : ℕ
  pub cpu_mie : ℕ
  pub tlb : List PteEntry
  pub ack : ℕ
  pub pass_up_vec : PassUpVec
  pub refill_entry : ℕ
  pub exception_entry : ℕ

-- How control leaves the Nucleus. `fault` stands for a read through NULL,
-- `out_of_fuel` for a recursion of the model that was cut short.
pub data Outcome : Type 0 where
  ldst : State → Outcome
  ldcxt : (stack_ptr status pc : ℕ) → Outcome
  halt : Outcome
  wait : Outcome
  panic : Outcome
  fault : Outcome
  out_of_fuel : Outcome

abbrev pub pcb_of : Kernel → ℕ → Pcb
pcb_of k p = k.phase1.table p

abbrev pub modify_pcb : ℕ → (Pcb → Pcb) → Kernel → Kernel
modify_pcb p f k = record k { phase1 = set_pcb p (f (k.phase1.table p)) k.phase1 }

-- The write `p->p_s = s` that `copyState` makes.
abbrev pub copy_state : ℕ → State → Kernel → Kernel
copy_state p s = modify_pcb p (λ c. record c { p_s = s })

abbrev pub store : ℕ → ℕ → Kernel → Kernel
store a v k = record k { mem = update k.mem a v }

abbrev pub dec_mem : ℕ → Kernel → Kernel
dec_mem a k = store a (dec32 (k.mem a)) k

abbrev pub inc_mem : ℕ → Kernel → Kernel
inc_mem a k = store a (inc32 (k.mem a)) k

abbrev pub pseudoclk_sem : ℕ
pseudoclk_sem = 48

abbrev pub tot_sems : ℕ
tot_sems = 49

-- The address of `devSems[i]`.
abbrev pub dev_sem : Kernel → ℕ → ℕ
dev_sem k i = k.dev_sems + 4 * i

abbrev pub dev_sem_base : (line dev : ℕ) → ℕ
dev_sem_base line dev = (line - 3) * 8 + dev

abbrev pub term_tx_sem : ℕ → ℕ
term_tx_sem dev = 32 + dev

abbrev pub term_rx_sem : ℕ → ℕ
term_rx_sem dev = 40 + dev

-- Charge the process p for the time since `startTOD`: STCK(now) and the two writes behind it.
unfoldable pub charge : ℕ → Kernel → Kernel
charge p k =
    let now = k.tod k.reads in
    modify_pcb p (λ c. record c { p_time = add32 c.p_time (sub32 now k.start_tod) })
      (record k { start_tod = now; reads = suc k.reads })

unfoldable pub update_cpu_time : Kernel → Kernel
unfolding charge
update_cpu_time k = elim k.current_process [ none ↦ k | some p ↦ charge p k ]

unfoldable pub is_device_semaphore : (base sem : ℕ) → Bool
is_device_semaphore base sem =
    if ltb sem base
    then false
    else if leb (base + 4 * tot_sems) sem
    then false
    else if (sem - base) / 4 == pseudoclk_sem
    then false
    else true

unfoldable pub active_procs_add : ℕ → List (Option ℕ) → Option (List (Option ℕ))
active_procs_add p [] = none
active_procs_add p (none ∷ rest) = some (some p ∷ rest)
active_procs_add p (some q ∷ rest) = elim (active_procs_add p rest) [
  | none ↦ none
  | some procs ↦ some (some q ∷ procs)
]

unfoldable pub active_procs_remove : ℕ → List (Option ℕ) → List (Option ℕ)
active_procs_remove p [] = []
active_procs_remove p (none ∷ rest) = none ∷ active_procs_remove p rest
active_procs_remove p (some q ∷ rest) =
    if q == p then none ∷ rest else some q ∷ active_procs_remove p rest

unfoldable pub find_process_by_pid : (ℕ → Pcb) → ℕ → List (Option ℕ) → Option ℕ
find_process_by_pid table target [] = none
find_process_by_pid table target (none ∷ rest) = find_process_by_pid table target rest
find_process_by_pid table target (some q ∷ rest) =
    if (table q).p_pid == target then some q else find_process_by_pid table target rest
