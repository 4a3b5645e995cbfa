-- ===== src/Nucleus/Exceptions.antt =====
-- phase2/exceptions.c: the entry points of the Nucleus.
use pand_aossh.Prelude.{
  ◌-◌, ltb, ℕ, ◌/◌, ◌%◌, ◌^◌, Bool, ◌&&◌, ◌||◌, none, some, ◌∷◌, leb, ◌==◌, if◌then◌else◌,
}
use pand_aossh.Prelude.Words.{add32}
use pand_aossh.Types.{ℤ, pos, negsuc, PteEntry}
use pand_aossh.Nucleus.Globals.{Kernel, Outcome, ldst, fault, pcb_of, update_cpu_time}
use pand_aossh.Nucleus.PassUp.{tlb_exception_handler, program_trap_handler}
use pand_aossh.Nucleus.Syscalls.{syscall_handler}
use pand_aossh.Nucleus.Interrupts.{interrupt_handler}

-- The codes of the memory management traps.
unfoldable pub is_tlb_code : ℕ → Bool
is_tlb_code c = (c == 12) || ((c == 13) || ((c == 15) || (leb 24 c && leb c 28)))

unfoldable pub advance_pc : Kernel → Kernel
advance_pc k = record k {
  saved_state = record k.saved_state { pc_epc = add32 k.saved_state.pc_epc 4 };
}

-- The entry of all exceptions but TLB refills.
unfoldable pub exception_handler : Kernel → Kernel × Outcome
exception_handler k =
    let cause = k.saved_state.cause in
    let k1 = update_cpu_time k in
    if cause / 2 ^ 31 % 2 == 1
    then interrupt_handler k1
    else (let code = cause % 256 in
        if (code == 8) || (code == 11)
        then syscall_handler (advance_pc k1)
        else if is_tlb_code code
        then tlb_exception_handler k1
        else program_trap_handler k1)

-- The index that `uTLB_RefillHandler` takes into the page table, an int that is not checked against
-- the table: below the first page it is negative.
unfoldable pub refill_index : (entry_hi : ℕ) → ℤ
refill_index entry_hi =
    let vpn = entry_hi / 2 ^ 12 % 2 ^ 20 in
    if vpn == 0xBFFFF
    then pos 31
    else if ltb vpn 0x80000
    then negsuc (0x80000 - vpn - 1)
    else pos (vpn - 0x80000)

-- What stands at an index of the table; before the table and behind it, what is in the memory there.
abbrev pub read_pte : Kernel → (sup : ℕ) → ℤ → PteEntry
read_pte k sup (pos i) =
    if ltb i 32 then (k.supports sup).sup_private_pg_tbl i else k.around_table sup (pos i)
read_pte k sup (negsuc n) = k.around_table sup (negsuc n)

-- With SUPPORT_LEVEL: the entry of the page table goes into the TLB.
unfoldable pub utlb_refill_handler : Kernel → Kernel × Outcome
utlb_refill_handler k = elim k.current_process [
  | none ↦ (k, fault)
  | some p ↦
      let sup = (pcb_of k p).p_support_struct in
      let pte = read_pte k sup (refill_index k.saved_state.entry_hi) in
      if sup == 0 then (k, fault) else (record k { tlb = pte ∷ k.tlb }, ldst k.saved_state)
]
