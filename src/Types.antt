-- ===== src/Types.antt =====
-- headers/types.h: the process control block, the semaphore descriptor, and the static data of
-- phase1/pcb.c and phase1/asl.c. A `pcb_t *` is an index into `pcbFree_table`, NULL is `none`; a
-- list headed by a `struct list_head` is the list of its entries in the order of the links
-- (Listx proves this view right); an `int *` is the address of the word, NULL is 0.
use pand_aossh.Prelude.{ℕ, List, Option}

-- `state_t` of the emulator: the words that the kernel names, and all others together.
pub record State : Type 0 where
  pub entry_hi : ℕ
  pub cause : ℕ
  pub status : ℕ
  pub pc_epc : ℕ
  pub mie : ℕ
  pub reg_sp : ℕ
  pub reg_a0 : ℕ
  pub reg_a1 : ℕ
  pub reg_a2 : ℕ
  pub reg_a3 : ℕ
  pub others : List ℕ

-- `p_list` is not a field: the list that a block is linked into holds its index.
pub record Pcb : Type 0 where
  pub p_parent : Option ℕ
  pub p_child : List ℕ
  pub p_s : State
  pub p_time : ℕ
  pub p_sem_add : ℕ
  pub p_support_struct : ℕ
  pub p_prio : ℕ
  pub p_pid : ℕ

-- `index` is the descriptor's place in `semd_table`.
pub record Semd : Type 0 where
  pub index : ℕ
  pub s_key : ℕ
  pub s_procq : List ℕ

-- The static variables of pcb.c and asl.c. `table` is `pcbFree_table`.
pub record Phase1 : Type 0 where
  pub table : ℕ → Pcb
  pub pcb_free : List ℕ
  pub next_pid : ℕ
  pub semd_free : List ℕ
  pub semd_h : List Semd

-- `context_t` and `pteEntry_t`.
pub record Context : Type 0 where
  pub stack_ptr : ℕ
  pub ctx_status : ℕ
  pub pc : ℕ

pub record PteEntry : Type 0 where
  pub pte_entry_hi : ℕ
  pub pte_entry_lo : ℕ

-- An int: `negsuc n` is minus n + 1.
pub data ℤ : Type 0 where
  pos negsuc : ℕ → ℤ

-- `support_t`: the arrays are functions of the index; the two stacks hold nothing that is read.
pub record Support : Type 0 where
  pub sup_asid : ℕ
  pub sup_except_state : ℕ → State
  pub sup_except_context : ℕ → Context
  pub sup_private_pg_tbl : ℕ → PteEntry
