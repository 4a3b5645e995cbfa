-- ===== src/Examples/Places.antt =====
-- The places of the blocks after `main` and a first call of PASSEREN.
use pand_aossh.Prelude.{
  ℕ, ◌-◌, ◌^◌, ◌≡◌, ◌≢◌, refl, sym, subst, true, none, some, false, [], arith, has, inr, Option,
  ◌∙◌,
}
use pand_aossh.Prelude.Counts.{occurs}
use pand_aossh.Phase1.Asl.Invariant.{queue}
use pand_aossh.Nucleus.Globals.{Kernel, panic, wait, is_device_semaphore, update_cpu_time}
use pand_aossh.Nucleus.Process.{terminate, block, block_current_process}
use pand_aossh.Nucleus.Initial.{main, boot, first_process}
use pand_aossh.Nucleus.Exceptions.{exception_handler, advance_pc}
use pand_aossh.Nucleus.Running.Reach.{Continues, Runs, Reach, booted, handled}
use pand_aossh.Nucleus.Places.Choice.{IsSound}
use pand_aossh.Nucleus.Places.Handlers.{IsProper}
use pand_aossh.Nucleus.Places.Outlives.{Ended}
use pand_aossh.Nucleus.Places.Ends.{terminate-Ended}
use pand_aossh.Nucleus.Places.Reach.{IsProperRun, Reach-IsSound, Reach-Waiting}
use pand_aossh.Nucleus.Start.{main_lem}
use pand_aossh.Phase1.Pcb.{alloc_pcb, init_pcbs}
use pand_aossh.Phase1.Asl.{find, init_asl, insert_blocked}
use pand_aossh.Nucleus.Scheduler.{dispatch, idle, scheduler}
use pand_aossh.Phase1.ProcQ.{insert_proc_q}
use pand_aossh.Nucleus.Soft.{is_soft, soft_waiters}
use pand_aossh.Nucleus.Soft.Handlers.{IsSoftProper}
use pand_aossh.Nucleus.Soft.Reach.{IsSoftRun, Reach-soft_waiters}
use pand_aossh.Nucleus.Soft.Deadlock.{Reach-Deadlock, Reach-Awaited}
use pand_aossh.Nucleus.Places.{IsLive}
use pand_aossh.Nucleus.Syscalls.{clock_wait, passeren, service, syscall_handler}
use pand_aossh.Examples.Data.{blank_state, blocks, demo}

abbrev owner : Option ℕ → ℕ
owner none = 0
owner (some p) = p

-- A kernel as it is loaded.
abbrev loaded : Kernel
loaded = record demo {
  phase1 = record demo.phase1 {
    table = λ p. record (blocks p) { p_parent = none; p_child = []; p_pid = 0 };
    next_pid = 1;
  };
  mem = λ a. 0;
}

-- The first process calls PASSEREN on the semaphore at 0x1000, which is 0.
abbrev first_wait : Kernel
first_wait = record (main 0x2000_0000 0x8000 loaded).0 {
  saved_state = record blank_state { cause = 11; reg_a0 = 2 ^ 32 - 3 };
}

started-Runs : Runs (main 0x2000_0000 0x8000 loaded).0 (main 0x2000_0000 0x8000 loaded).1 first_wait
started-Runs = record {
  next =
      subst (λ o. Continues o first_wait) (sym (main_lem 0x2000_0000 0x8000 loaded refl).loaded) tt;
  phase1 = refl;
  count = refl;
  blocked = refl;
  ready = refl;
  current = refl;
  yielder = refl;
  active = refl;
  devices = refl;
}

abbrev waiting_run : Reach (exception_handler first_wait)
waiting_run = handled first_wait (booted 0x2000_0000 0x8000 loaded refl) started-Runs

-- The first process has the block 0 and the process id 1, and no block is free twice.
first_names :
    (first_wait.current_process ≡ some 0)
    × ((first_wait.phase1.table 0).p_pid ≡ 1)
    × (occurs 0 first_wait.phase1.pcb_free ≡ 0)
    × (first_wait.dev_sems ≡ 0x2000)
unfolding main alloc_pcb boot init_asl init_pcbs scheduler first_process insert_proc_q dispatch
first_names = (refl, refl, refl, refl)

first_wait-IsProper : IsProper first_wait
first_wait-IsProper = record {
  devices = λ e. let d = first_names.3 in omega (arith, e, d);
  semaphore = λ _ e. omega (arith, e);
  named = λ p c e.
      let (f, pid, _, _) = first_names in
      let zero_p : some p ≡ some 0 = sym c ∙ f in
      let pid_p : (first_wait.phase1.table p).p_pid ≡ 1 =
        subst (λ (o : Option ℕ). (first_wait.phase1.table (owner o)).p_pid ≡ 1) (sym zero_p) pid in
      omega (arith, e, pid_p);
}

waiting_run-IsProperRun : IsProperRun waiting_run
waiting_run-IsProperRun = (first_wait-IsProper, λ p. (refl, refl))

Reach-IsSound_example : IsSound (exception_handler first_wait)
Reach-IsSound_example = Reach-IsSound waiting_run waiting_run-IsProperRun

-- The only process waits for a V that will not come.
first_panic :
    ((exception_handler first_wait).1 ≡ panic)
    × (occurs 0 (exception_handler first_wait).0.phase1.pcb_free ≡ 0)
unfolding main alloc_pcb boot init_asl init_pcbs scheduler first_process insert_proc_q dispatch
    exception_handler syscall_handler advance_pc update_cpu_time service passeren
    block_current_process block idle is_device_semaphore insert_blocked find
first_panic = (refl, refl)

Reach-Waiting_example :
    has 0 (
      queue
        (exception_handler first_wait).0.phase1
        ((exception_handler first_wait).0.phase1.table 0).p_sem_add)
    ≡ true
Reach-Waiting_example =
    Reach-Waiting waiting_run waiting_run-IsProperRun (inr first_panic.0) 0
      (first_panic.1, omega arith)

main-IsSound_here : IsSound (main 0x2000_0000 0x8000 loaded)
main-IsSound_here = Reach-IsSound (booted 0x2000_0000 0x8000 loaded refl) (λ p. (refl, refl))

terminate-Ended_example :
    Ended 0 first_wait (terminate 0 first_wait) × (terminate 0 first_wait ≢ none)
terminate-Ended_example =
    terminate-Ended 0 first_wait main-IsSound_here.0 main-IsSound_here.1
      (first_names.2, omega arith)

first_wait-IsSoftProper : IsSoftProper first_wait
unfolding is_device_semaphore
first_wait-IsSoftProper = record {
  proper = first_wait-IsProper;
  waits = λ _ e. let d = first_names.3 in omega (arith, e, d);
  signals = λ e. absurd (omega (arith, e));
  io = λ e. absurd (omega (arith, e));
}

waiting_run-IsSoftRun : IsSoftRun waiting_run
waiting_run-IsSoftRun = (first_wait-IsSoftProper, λ p. (refl, refl))

Reach-Deadlock_example :
    (has 0 (
        queue
          (exception_handler first_wait).0.phase1
          ((exception_handler first_wait).0.phase1.table 0).p_sem_add)
      ≡ true)
    × (is_soft
          (exception_handler first_wait).0.dev_sems
          ((exception_handler first_wait).0.phase1.table 0).p_sem_add
        ≡ false)
Reach-Deadlock_example =
    Reach-Deadlock waiting_run waiting_run-IsSoftRun first_panic.0 0 (first_panic.1, omega arith)

-- The first process waits for the clock.
abbrev first_clock : Kernel
first_clock = record first_wait {
  saved_state = record blank_state { cause = 11; reg_a0 = 2 ^ 32 - 7 };
}

clock_start-Runs :
    Runs (main 0x2000_0000 0x8000 loaded).0 (main 0x2000_0000 0x8000 loaded).1 first_clock
clock_start-Runs = record {
  next =
      subst (λ o. Continues o first_clock) (sym (main_lem 0x2000_0000 0x8000 loaded refl).loaded)
        tt;
  phase1 = refl;
  count = refl;
  blocked = refl;
  ready = refl;
  current = refl;
  yielder = refl;
  active = refl;
  devices = refl;
}

abbrev clock_run : Reach (exception_handler first_clock)
clock_run = handled first_clock (booted 0x2000_0000 0x8000 loaded refl) clock_start-Runs

first_clock-IsSoftProper : IsSoftProper first_clock
first_clock-IsSoftProper = record {
  proper = record {
    devices = first_wait-IsProper.devices;
    semaphore = λ e. absurd (omega (arith, e));
    named = first_wait-IsProper.named;
  };
  waits = λ e. absurd (omega (arith, e));
  signals = λ e. absurd (omega (arith, e));
  io = λ e. absurd (omega (arith, e));
}

clock_run-IsSoftRun : IsSoftRun clock_run
clock_run-IsSoftRun = (first_clock-IsSoftProper, λ p. (refl, refl))

Reach-soft_waiters_example :
    (exception_handler first_clock).0.soft_block_count
    ≡ soft_waiters
        (exception_handler first_clock).0.dev_sems
        (exception_handler first_clock).0.phase1
Reach-soft_waiters_example = Reach-soft_waiters clock_run clock_run-IsSoftRun

clock_waits : (exception_handler first_clock).1 ≡ wait
unfolding main alloc_pcb boot init_asl init_pcbs scheduler first_process insert_proc_q dispatch
    exception_handler syscall_handler advance_pc update_cpu_time service clock_wait
    block_current_process block idle is_device_semaphore insert_blocked find
clock_waits = refl

Reach-Awaited_example :
    (a : ℕ) × IsLive (exception_handler first_clock).0.phase1 a
    × (has a (
          queue
            (exception_handler first_clock).0.phase1
            ((exception_handler first_clock).0.phase1.table a).p_sem_add)
        ≡ true)
    × (is_soft
          (exception_handler first_clock).0.dev_sems
          ((exception_handler first_clock).0.phase1.table a).p_sem_add
        ≡ true)
Reach-Awaited_example = Reach-Awaited clock_run clock_run-IsSoftRun clock_waits
