-- ===== src/Nucleus/PassUp.antt =====
-- phase2/exceptions.c: `passUpOrDie` and the two handlers that only call it.
use pand_aossh.Prelude.{ℕ, Option, none, some, ◌==◌, if◌then◌else◌, update}
use pand_aossh.Nucleus.Globals.{Kernel, Outcome, ldcxt, out_of_fuel, pcb_of, update_cpu_time}
use pand_aossh.Nucleus.Scheduler.{scheduler}
use pand_aossh.Nucleus.Process.{terminate}

abbrev pub pgfaultexcept : ℕ
pgfaultexcept = 0

abbrev pub generalexcept : ℕ
generalexcept = 1

-- `terminateProcess(currentProcess)`, which returns at once when that is NULL.
terminate_current : Kernel → Option Kernel
terminate_current k = elim k.current_process [ none ↦ some k | some p ↦ terminate p k ]

unfoldable pub die : Kernel → Kernel × Outcome
unfolding terminate_current
die k = elim (terminate_current (update_cpu_time k)) [
  | none ↦ (k, out_of_fuel)
  | some k' ↦ scheduler (record k' { current_process = none })
]

unfoldable pub pass_up : (exception_type sup : ℕ) → Kernel → Kernel × Outcome
pass_up exception_type sup k =
    let s = k.supports sup in
    let ctx = s.sup_except_context exception_type in
    (
      record k {
        supports = update k.supports sup (record s {
          sup_except_state = update s.sup_except_state exception_type k.saved_state;
        });
      },
      ldcxt ctx.stack_ptr ctx.ctx_status ctx.pc,
    )

unfoldable pub pass_up_or_die : (exception_type : ℕ) → Kernel → Kernel × Outcome
pass_up_or_die exception_type k = elim k.current_process [
  | none ↦ die k
  | some p ↦
      let sup = (pcb_of k p).p_support_struct in
      if sup == 0 then die k else pass_up exception_type sup k
]

abbrev pub tlb_exception_handler : Kernel → Kernel × Outcome
tlb_exception_handler = pass_up_or_die pgfaultexcept

abbrev pub program_trap_handler : Kernel → Kernel × Outcome
program_trap_handler = pass_up_or_die generalexcept
