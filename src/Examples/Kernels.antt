-- ===== src/Examples/Kernels.antt =====
-- The scheduler, the services, termination, devices, page numbers and the log.
use pand_aossh.Prelude.{
  ◌==◌, if◌then◌else◌, ◌/◌, ◌%◌, sym, subst, ℕ, ◌+◌, ◌-◌, ◌^◌, ◌<◌, ◌≡◌, refl, false, none, some,
  [], ◌∷◌, arith,
}
use pand_aossh.Prelude.Words.{inc32, is_neg, dec32}
use pand_aossh.Nucleus.Globals.{
  Kernel, dev_sem_base, term_tx_sem, term_rx_sem, pseudoclk_sem, inc_mem, store,
}
use pand_aossh.Nucleus.Scheduler.{scheduler}
use pand_aossh.Nucleus.Scheduler.Choice.{Schedules, scheduler_lem}
use pand_aossh.Nucleus.Process.{terminate}
use pand_aossh.Nucleus.Termination.{Ends, terminate-Ends}
use pand_aossh.Nucleus.Termination.Children.{IsInside}
use pand_aossh.Nucleus.Exceptions.{exception_handler, refill_index}
use pand_aossh.Nucleus.Syscalls.{verhogen, doio_sem, passeren}
use pand_aossh.Nucleus.Blocking.{Passes, lowered, passeren_lem}
use pand_aossh.Nucleus.Clock.{Ticks, interval_interrupt_lem}
use pand_aossh.Nucleus.Initial.{main}
use pand_aossh.Nucleus.Running.{Settled}
use pand_aossh.Nucleus.Running.Reach.{Continues, Runs, booted, handled, AllBlocks, Reach-Settled}
use pand_aossh.Nucleus.Start.{Started, main_lem}
use pand_aossh.Phase1.ProcQ.Order.{IsOrdered}
use pand_aossh.Nucleus.Completion.{Delivered, device_interrupt_lem, transmitter_unordered}
use pand_aossh.Support.Vm.{pager}
use pand_aossh.Support.Vm.Mutex.{Balance, pager-Balance}
use pand_aossh.Nucleus.Semaphores.{Woken, signalled, verhogen_lem}
use pand_aossh.Nucleus.Interrupts.{
  dev_reg_base, interval_interrupt, device_interrupt, terminal_interrupt,
}
use pand_aossh.Types.{pos}
use pand_aossh.Nucleus.Devices.{doio_sem-interrupt, dev_sem_base-injective}
use pand_aossh.Support.Vm.{vpn_to_index}
use pand_aossh.Support.Vm.Pages.{Misses, refill_index-vpn_to_index}
use pand_aossh.Klog.{Log, klog_print, klog_print_hex, klog_print_dec, digits_of}
use pand_aossh.Klog.Digits.{IsLog, prints-IsLog, value, digits_of-value}
use pand_aossh.Examples.Data.{blocks, demo, fresh_vm}
use pand_aossh.Examples.Queues.{pools-IsAsl}

-- The running process calls VERHOGEN on the semaphore at 0x1000.
abbrev calling : Kernel
calling = record demo { saved_state = record demo.saved_state { cause = 11; reg_a0 = 2 ^ 32 - 4 } }

blocks-IsInside : IsInside blocks
blocks-IsInside p = ground arith

terminate-Ends_example : Ends demo (terminate 5 demo)
terminate-Ends_example = terminate-Ends 5 demo (omega arith) blocks-IsInside

scheduler_lem_example : Schedules none (2 ∷ 1 ∷ []) demo (scheduler demo)
scheduler_lem_example = scheduler_lem demo ((refl, tt), (tt, tt))

-- The process 1 has yielded, and 2 is ready.
abbrev yielding : Kernel
yielding = record demo {
  yielded_process = some 1;
  ready_queue = 2 ∷ 0 ∷ [];
  current_process = none;
}

verhogen_lem_example :
    Woken 0x1000 3 (4 ∷ []) (signalled 0 calling) (verhogen 0 calling).0
    × ((verhogen 0 calling).0.mem 0x1000 ≡ inc32 (2 ^ 32 - 2))
unfolding pand_aossh.Phase1.Asl.Queues.procq_of
verhogen_lem_example = verhogen_lem 0 3 (4 ∷ []) calling pools-IsAsl refl refl

passeren_lem_example :
    Passes (is_neg (dec32 (2 ^ 32 - 2))) 0x1000 0 (lowered 0 calling) (passeren 0 calling)
passeren_lem_example = passeren_lem 0 calling pools-IsAsl refl refl

-- The two processes that wait at 0x1000 wait for the clock.
abbrev ticking : Kernel
ticking = record demo { dev_sems = 0x1000 - 192 }

interval_interrupt_lem_example : Ticks ticking (interval_interrupt ticking)
interval_interrupt_lem_example = interval_interrupt_lem ticking pools-IsAsl

main_lem_example :
    Started 0x2000 0x8000
      (record {
        tlb_refill_handler = demo.refill_entry;
        tlb_refill_stack_ptr = 0x2000_0000;
        exception_handler = demo.exception_entry;
        exception_stack_ptr = 0x2000_0000 - 0x1000;
      })
      (main 0x2000_0000 0x8000 demo)
main_lem_example = main_lem 0x2000_0000 0x8000 demo refl

-- The first process calls VERHOGEN.
abbrev first_call : Kernel
first_call = record (main 0x2000_0000 0x8000 demo).0 { saved_state = calling.saved_state }

first-Runs : Runs (main 0x2000_0000 0x8000 demo).0 (main 0x2000_0000 0x8000 demo).1 first_call
first-Runs = record {
  next =
      subst (λ o. Continues o first_call) (sym (main_lem 0x2000_0000 0x8000 demo refl).loaded) tt;
  phase1 = refl;
  count = refl;
  blocked = refl;
  ready = refl;
  current = refl;
  yielder = refl;
  active = refl;
  devices = refl;
}

Reach-Settled_example :
    Settled (exception_handler first_call) × AllBlocks (exception_handler first_call)
Reach-Settled_example =
    Reach-Settled (handled first_call (booted 0x2000_0000 0x8000 demo refl) first-Runs)

-- The two processes that wait at 0x1000 wait for the first device of line 4.
abbrev working : Kernel
working = record demo { dev_sems = 0x1000 - 32 }

-- They wait for the transmitter of the first terminal, which has sent a character.
abbrev transmitting : Kernel
transmitting = record demo {
  dev_sems = 0x1000 - 128;
  mem = λ a. if a == 0x1000_025C then 5 else if a == 0x1000_0254 then 0 else demo.mem a;
}

device_interrupt_lem_example :
    Delivered false 0x1000
      (working.mem 0x1000_00D4)
      3
      (4 ∷ [])
      (inc_mem 0x1000 (store 0x1000_00D8 working.ack working))
      (device_interrupt 4 0 working)
unfolding pand_aossh.Phase1.Asl.Queues.procq_of
device_interrupt_lem_example = device_interrupt_lem 4 0 3 (4 ∷ []) working pools-IsAsl refl refl

transmitter_unordered_example : ¬ IsOrdered blocks (terminal_interrupt 0 transmitting).ready_queue
unfolding pand_aossh.Phase1.Asl.Queues.procq_of
transmitter_unordered_example =
    transmitter_unordered 0 3 2 (4 ∷ []) transmitting pools-IsAsl refl (omega arith) refl refl refl
      refl

doio_sem-interrupt_example :
    (doio_sem (dev_reg_base 4 2 + 4) ≡ dev_sem_base 4 2)
    × (doio_sem (dev_reg_base 7 2 + 12) ≡ term_tx_sem 2)
    × (doio_sem (dev_reg_base 7 2 + 4) ≡ term_rx_sem 2)
doio_sem-interrupt_example = doio_sem-interrupt 4 2 (omega arith) (omega arith) (omega arith)

dev_sem_base-injective_example :
    (◌≡◌ {A = ℕ} 4 4) × (◌≡◌ {A = ℕ} 2 2) × (dev_sem_base 4 2 < pseudoclk_sem)
dev_sem_base-injective_example =
    dev_sem_base-injective 4 2 4 2 (omega arith) (omega arith) (omega arith) (omega arith)
      (omega arith) refl

refill_index-vpn_to_index_example :
    ((i : ℕ) → vpn_to_index 0x8000_3000 ≡ some i → (refill_index 0x8000_3000 ≡ pos i) × (i < 32))
    × (vpn_to_index 0x8000_3000 ≡ none
        → Misses (0x8000_3000 / 2 ^ 12 % 2 ^ 20) (refill_index 0x8000_3000))
refill_index-vpn_to_index_example = refill_index-vpn_to_index 0x8000_3000

abbrev empty_log : Log
empty_log = record { line_index = 63; char_index = 41; buffer = λ i j. 0 }

prints-IsLog_example :
    IsLog (klog_print (10 ∷ 65 ∷ []) empty_log)
    × IsLog (klog_print_hex 255 empty_log)
    × IsLog (klog_print_dec 255 empty_log)
prints-IsLog_example =
    prints-IsLog (10 ∷ 65 ∷ []) 255 empty_log (record { line = omega arith; column = omega arith })

digits_of-value_example : value 10 (digits_of 123 10 123 (λ d. d)) ≡ 123
digits_of-value_example = digits_of-value 123 10 123 (omega arith) (omega arith)

pager-Balance_example : Balance 0 fresh_vm (pager 1 12 0x8000_0000 fresh_vm).0
pager-Balance_example = pager-Balance 1 12 0x8000_0000 fresh_vm
