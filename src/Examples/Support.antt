-- ===== src/Examples/Support.antt =====
-- The Pager, the services of the Support Level, and the InstantiatorProcess.
use pand_aossh.Prelude.{
  update, zero, suc, ◌+◌, ◌-◌, ◌*◌, ◌%◌, ◌^◌, ◌&&◌, ◌≡◌, refl, true, false, some, ◌∷◌, ◌++◌, arith,
  ◌==◌, if◌then◌else◌,
}
use pand_aossh.Prelude.Words.{minus}
use pand_aossh.Types.{State}
use pand_aossh.Support.Vm.{
  is_valid, Vm, pager, terminated, init_uproc_page_table, init_swap_structs, Call, passeren,
  verhogen, dev_mutex, transmit, swap_pool_sem,
}
use pand_aossh.Support.Vm.Pool.{IsPool, IsSwapPool, entry_lo}
use pand_aossh.Support.Vm.Paging.{Paged, pager-Paged}
use pand_aossh.Support.Vm.Flash.{evict_calls, load_calls}
use pand_aossh.Support.Vm.Failure.{pager_stale}
use pand_aossh.Support.Vm.Release.{init_uproc_page_table-invalid}
use pand_aossh.Support.Vm.Life.{Life, launched, booted, paged, Sound, HasOneFrame}
use pand_aossh.Support.Vm.Agreement.{Listed, Life-Agrees}
use pand_aossh.Support.Init.{Sys, test}
use pand_aossh.Support.Init.Boot.{Semaphores, Handlers, Fresh, boot_calls, test_lem}
use pand_aossh.Support.Sys.{general_exception_handler, write_terminal, termw_mutex, char_command}
use pand_aossh.Support.Sys.Terminal.{Does}
use pand_aossh.Support.Sys.Rounds.{Sends, commands, release}
use pand_aossh.Support.Sys.Write.{write_terminal_refused}
use pand_aossh.Support.Sys.Read.{IsLine}
use pand_aossh.Support.Sys.Handler.{Lines, handler-Lines}
use pand_aossh.Support.Sys.Execute.{Executes, handler-Executes}
use pand_aossh.Examples.Data.{fresh_vm, blank_state}

fresh_vm-IsSwapPool : IsSwapPool fresh_vm
unfolding IsPool
fresh_vm-IsSwapPool i b o = absurd (o refl)

pager-Paged_example :
    Paged 1 5 0 (record fresh_vm { fifo_next = 1 }) (pager 1 12 0x8000_5000 fresh_vm)
    × ((pager 1 12 0x8000_5000 fresh_vm).0.trace
        ≡ fresh_vm.trace ++ (passeren swap_pool_sem ∷ evict_calls 0 fresh_vm ++ load_calls 1 5 0))
unfolding pand_aossh.Support.Vm.vpn_to_index
pager-Paged_example =
    pager-Paged 1 12 0x8000_5000 5 fresh_vm fresh_vm-IsSwapPool (omega arith) (λ k. refl)
      (omega arith) refl refl

-- The frame 0 holds the page 3 of the U-proc 2.
abbrev held_vm : Vm
held_vm = record fresh_vm {
  swap_pool = λ i.
      if i == 0
      then record { sw_asid = 2; sw_page_no = 3; sw_pte = (2, 3) }
      else record { sw_asid = 2 ^ 32 - 1; sw_page_no = 0; sw_pte = (0, 0) };
  page_tables = λ a i. record { pte_entry_hi = 0; pte_entry_lo = entry_lo 0 };
}

held_vm-IsSwapPool : IsSwapPool held_vm
unfolding IsPool
held_vm-IsSwapPool zero b o = (refl, refl)
held_vm-IsSwapPool (suc i) b o = absurd (o (ground arith))

-- The flash devices answer 5, an error.
abbrev broken_vm : Vm
broken_vm = record held_vm { answer = λ k. 5 }

pager_stale_example :
    ((pager 1 12 0x8000_5000 broken_vm).1 ≡ terminated)
    × ((pager 1 12 0x8000_5000 broken_vm).0.swap_pool 0 ≡ broken_vm.swap_pool 0)
    × (is_valid ((pager 1 12 0x8000_5000 broken_vm).0.page_tables 2 3) ≡ false)
unfolding pand_aossh.Support.Vm.vpn_to_index
pager_stale_example =
    pager_stale 1 12 0x8000_5000 5 broken_vm held_vm-IsSwapPool (omega arith) (omega arith) refl
      (omega arith) (omega arith) (omega arith)

-- The U-proc 2 is launched and meets a page fault on its page 5.
abbrev launched_2 : Vm
launched_2 = init_uproc_page_table 2 (init_swap_structs fresh_vm)

launched_2-Life : Life (update (λ _. false) 2 true) launched_2
launched_2-Life = launched 2 (booted fresh_vm) (omega arith) refl

Life-Agrees_example :
    Sound (update (λ _. false) 2 true) (pager 2 12 0x8000_5000 launched_2).0
    × Listed
        (update (λ _. false) 2 true)
        (pager 2 12 0x8000_5000 launched_2).0.swap_pool
        (pager 2 12 0x8000_5000 launched_2).0.page_tables
    × HasOneFrame (pager 2 12 0x8000_5000 launched_2).0
unfolding pand_aossh.Support.Vm.vpn_to_index pand_aossh.Support.Vm.init_swap_structs
    pand_aossh.Support.Vm.init_uproc_page_table
Life-Agrees_example = Life-Agrees (
    paged 2 12 0x8000_5000 5 launched_2-Life refl (λ k. refl) (omega arith) refl
      (init_uproc_page_table-invalid 2 5 (init_swap_structs fresh_vm) (omega arith)))

abbrev pub sys : Sys
sys = record {
  vm = fresh_vm;
  sems = λ s. 0;
  asids = λ a. 0;
  contexts = λ a k. record { stack_ptr = 0; ctx_status = 0; pc = 0 };
  layout = record {
    pager = 0x2000_1000;
    general_exception_handler = 0x2000_2000;
    stack_tlb = λ a. 0x2001_0000 + a * 4096;
    stack_gen = λ a. 0x2001_0800 + a * 4096;
  };
  memory = λ a. a % 256;
}

test_lem_example :
    Semaphores (test sys)
    × Handlers 1 sys.layout (test sys)
    × Fresh 1 (test sys).vm
    × ((test sys).vm.trace ≡ sys.vm.trace ++ boot_calls)
test_lem_example = test_lem sys

-- The pages 1 and 30 of the U-proc 1 are in the frames 0 and 1.
abbrev pub resident_vm : Vm
resident_vm = record fresh_vm {
  swap_pool = λ i.
      if i == 0
      then record { sw_asid = 1; sw_page_no = 1; sw_pte = (1, 1) }
      else if i == 1
      then record { sw_asid = 1; sw_page_no = 30; sw_pte = (1, 30) }
      else record { sw_asid = 2 ^ 32 - 1; sw_page_no = 0; sw_pte = (0, 0) };
  fifo_next = 2;
  page_tables = λ a p.
      if a == 1 && (p == 1)
      then record { pte_entry_hi = 0x8000_1040; pte_entry_lo = entry_lo 0 }
      else if a == 1 && (p == 30)
      then record { pte_entry_hi = 0x8001_E040; pte_entry_lo = entry_lo 1 }
      else record { pte_entry_hi = 0; pte_entry_lo = 0 };
}

-- The terminal gives "AA" and a newline, each with the status 5.
abbrev typing : Sys
typing = record sys { vm = record resident_vm { answer = λ k. if k == 2 then 0x0A05 else 0x4105 } }

two_typed : IsLine 1 0x8000_1000 2 typing
unfolding pand_aossh.Support.Vm.vpn_to_index
two_typed = record {
  good = λ k b. ground arith;
  mapped = λ k b. ground arith;
  inner = λ k b. ground arith;
  last = refl;
}

-- SYS5 for the address 0x80001000.
abbrev reading : State
reading = record blank_state { cause = 8; reg_a0 = 5; reg_a1 = 0x8000_1000 }

handler-Lines_example : Lines reading 2 typing (general_exception_handler 10 1 reading typing)
handler-Lines_example = handler-Lines 10 1 2 reading typing refl refl refl (omega arith) two_typed

-- The third answer is an error, 4.
abbrev failing : Sys
failing = record sys { vm = record resident_vm { answer = λ k. if k == 2 then 4 else 5 } }

two_good : Sends 1 0x8000_1000 2 0 failing
unfolding pand_aossh.Support.Vm.vpn_to_index
two_good k b = (ground arith, ground arith)

write_terminal_refused_example :
    Does
      (some (minus 4))
      (passeren (dev_mutex termw_mutex) ∷ commands failing.memory 0x8000_1000 0 2
        ++ transmit (char_command (failing.memory 0x8000_1002)) ∷ release)
      failing
      (write_terminal 1 0x8000_1000 3 failing)
unfolding pand_aossh.Support.Vm.vpn_to_index
write_terminal_refused_example =
    write_terminal_refused 1 0x8000_1000 3 2 failing refl (omega arith) (omega arith) two_good refl
      (omega arith)

-- SYS6 for the program of ASID 4.
abbrev executing : State
executing = record blank_state { cause = 8; reg_a0 = 6; reg_a1 = 4 }

handler-Executes_example :
    Executes true executing sys (general_exception_handler 10 1 executing sys)
handler-Executes_example = handler-Executes 10 1 executing sys refl refl
