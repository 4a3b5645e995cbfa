-- ===== src/Support/Init/Boot.antt =====
-- What the InstantiatorProcess has set up for the shell, and the shell's first page fault.
use pand_aossh.Prelude.{ℕ, ◌∙◌, ◌<◌, ◌≡◌, refl, List, [], ◌∷◌, ◌++◌, arith, append_assoc, false}
use pand_aossh.Support.Vm.{
  is_valid, Vm, swap_pool_size, swap_pool_sem, master_semaphore, shell_semaphore, dev_mutex, Call,
  passeren, create_process, term_process, init_swap_structs, init_uproc_page_table,
}
use pand_aossh.Support.Vm.Pool.{IsSwapPool}
use pand_aossh.Support.Vm.Release.{
  init_swap_structs-IsSwapPool, init_uproc_page_table-IsSwapPool, init_uproc_page_table-invalid,
  HasNoFrame,
}
use pand_aossh.Support.Vm.Pool.{free_frames-free}
use pand_aossh.Support.Init.{
  Sys, Layout, dev_mutex_total, support_status, uproc_state, handler_contexts, launch_uproc,
  init_sems, test,
}

-- The calls of the InstantiatorProcess: it creates the shell, waits for its end and ends itself.
abbrev pub boot_calls : List Call
boot_calls = create_process (uproc_state 1) 0 1 ∷ passeren master_semaphore ∷ term_process ∷ []

abbrev pub Semaphores : Sys → Type 0
Semaphores s =
    (s.sems swap_pool_sem ≡ 1)
    × (s.sems master_semaphore ≡ 0)
    × (s.sems shell_semaphore ≡ 0)
    × ((i : ℕ) → i < dev_mutex_total → s.sems (dev_mutex i) ≡ 1)

-- The handlers of the U-proc run on its own stacks.
abbrev pub Handlers : (asid : ℕ) → Layout → Sys → Type 0
Handlers asid l s =
    (s.asids asid ≡ asid)
    × (s.contexts asid 0
        ≡ record { stack_ptr = l.stack_tlb asid; ctx_status = support_status; pc = l.pager })
    × (s.contexts asid 1 ≡ record {
      stack_ptr = l.stack_gen asid;
      ctx_status = support_status;
      pc = l.general_exception_handler;
    })

-- The cursor is in the swap pool, frames and page tables agree, and the U-proc has no valid page.
abbrev pub Fresh : (asid : ℕ) → Vm → Type 0
Fresh asid v =
    (v.fifo_next < swap_pool_size)
    × IsSwapPool v
    × ((p : ℕ) → p < 32 → is_valid (v.page_tables asid p) ≡ false)

test-Semaphores : (s : Sys) → Semaphores (test s)
unfolding test launch_uproc init_sems
test-Semaphores s = (refl, refl, refl, λ i h. ground arith)

test-Handlers : (s : Sys) → Handlers 1 s.layout (test s)
unfolding test launch_uproc handler_contexts
test-Handlers s = (refl, refl, refl)

test-trace : (s : Sys) → (test s).vm.trace ≡ s.vm.trace ++ boot_calls
unfolding test launch_uproc init_swap_structs init_uproc_page_table
test-trace s =
    append_assoc (s.vm.trace ++ create_process (uproc_state 1) 0 1 ∷ [])
      (passeren master_semaphore ∷ []) (term_process ∷ [])
    ∙ append_assoc s.vm.trace (create_process (uproc_state 1) 0 1 ∷ [])
        (passeren master_semaphore ∷ term_process ∷ [])

init_swap_structs-HasNoFrame : (v : Vm) → HasNoFrame 1 (init_swap_structs v)
unfolding init_swap_structs
init_swap_structs-HasNoFrame v i b h =
    let e = free_frames-free swap_pool_size v.swap_pool i b in ground (arith, e, h)

test-Fresh : (s : Sys) → Fresh 1 (test s).vm
unfolding test launch_uproc init_swap_structs init_uproc_page_table
test-Fresh s =
    let v = init_swap_structs s.vm in
    (
      omega arith,
      init_uproc_page_table-IsSwapPool 1 v (init_swap_structs-HasNoFrame s.vm)
          (init_swap_structs-IsSwapPool s.vm),
      λ p. init_uproc_page_table-invalid 1 p v,
    )

-- After the InstantiatorProcess, whatever was there before: the semaphores have their first values,
-- the shell's support structure names the two handlers, its page table has no valid entry, frames
-- and page tables agree, and the calls were to create the shell, to wait and to end.
pub test_lem :
    (s : Sys)
    → Semaphores (test s)
      × Handlers 1 s.layout (test s)
      × Fresh 1 (test s).vm
      × ((test s).vm.trace ≡ s.vm.trace ++ boot_calls)
test_lem s = (test-Semaphores s, test-Handlers s, test-Fresh s, test-trace s)
