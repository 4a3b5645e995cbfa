-- ===== src/Nucleus/Scheduler.antt =====
-- phase2/scheduler.c.
pub mod Choice
use Prim.Native.Nat.{bit_or}
use pand_aossh.Prelude.{ℕ, suc, ◌*◌, ◌%◌, ◌-◌, none, some, List, [], ◌∷◌, ◌==◌, if◌then◌else◌}
use pand_aossh.Prelude.Words.{word_mod, slt}
use pand_aossh.Phase1.ProcQ.{insert_proc_q}
use pand_aossh.Nucleus.Globals.{Kernel, Outcome, ldst, halt, wait, panic, pcb_of}

abbrev pub timeslice : ℕ
timeslice = 5000000

abbrev pub timescaleaddr : ℕ
timescaleaddr = 0x10000024

-- Load the process p with a fresh time slice.
unfoldable pub dispatch : ℕ → Kernel → Kernel × Outcome
dispatch p k = (
  record k {
    current_process = some p;
    start_tod = k.tod k.reads;
    reads = suc k.reads;
    timer = (timeslice * k.mem timescaleaddr) % word_mod;
  },
  ldst (pcb_of k p).p_s,
)

-- Steps 2 to 4: nothing is ready.
unfoldable pub idle : Kernel → Kernel × Outcome
idle k =
    if k.process_count == 0
    then (k, halt)
    else if slt 0 k.soft_block_count
    then (record k { cpu_mie = 0xffff_ffff - 0x40; cpu_status = bit_or k.cpu_status 8 }, wait)
    else (k, panic)

unfoldable pub run_ready : List ℕ → Kernel → Kernel × Outcome
run_ready [] k = idle (record k { current_process = none })
run_ready (p ∷ rest) k = dispatch p (record k { ready_queue = rest })

-- The yielder y gives way to a ready process of its priority or higher.
unfoldable pub resume_yielder : (y : ℕ) → List ℕ → Kernel → Kernel × Outcome
unfolding run_ready
resume_yielder y [] k = dispatch y k
resume_yielder y (p ∷ rest) k =
    if slt (pcb_of k p).p_prio (pcb_of k y).p_prio
    then dispatch y k
    else (let queue = insert_proc_q k.phase1.table y (p ∷ rest) in
        run_ready queue (record k { ready_queue = queue }))

unfoldable pub scheduler : Kernel → Kernel × Outcome
unfolding resume_yielder
scheduler k = elim k.yielded_process [
  | none ↦ run_ready k.ready_queue k
  | some y ↦ resume_yielder y k.ready_queue (record k { yielded_process = none })
]
